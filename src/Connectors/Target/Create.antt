-- ===== src/Connectors/Target/Create.antt =====
-- src/backend/connectors/target_agent.py: the constructor of `TargetAgentConnector`, and the headers of its
-- requests. `urlparse` is the library's.
use Prim.Native.String.{◌++◌ as str_append}
use text.Mathlib.Text.{◌==◌ as str_eq}
use crucible.Base.{
  ℕ, ◌≡◌, String, true, false, not, ◌&&◌, List, [], ◌∷◌, Option, none, some, arith, Bool-cases, inl,
  inr, if◌then◌else◌,
}
use crucible.Db.Run.{Exn}
use crucible.Worker.Result.{Result, ok, raised}

pub record ParseResult : Type 0 where
  pub scheme : String
  pub hostname : Option String

-- the timeouts are in seconds
pub record Connector : Type 0 where
  pub endpoint_url : String
  pub bearer_token : Option String
  pub read_timeout : ℕ
  pub connect_timeout : ℕ
  pub key_prefix : Option String
  pub failure_threshold : ℕ

module _ (app_env : String) (urlparse : String → ParseResult) (ssrf_violation : Exn) where
  unfoldable pub create :
      (endpoint_url : String) → (bearer_token : Option String) → Result Connector
  create endpoint_url bearer_token =
      let parsed = urlparse endpoint_url in
      if not (str_eq app_env "development") && not (str_eq parsed.scheme "https")
      then raised ssrf_violation
      else ok (record {
        endpoint_url = endpoint_url;
        bearer_token = bearer_token;
        read_timeout = 30;
        connect_timeout = 5;
        key_prefix = parsed.hostname;
        failure_threshold = 4;
      })

  endpoint-create :
      (endpoint_url : String) (bearer_token : Option String) (c : Connector)
      → create endpoint_url bearer_token ≡ ok c
      → c.endpoint_url ≡ endpoint_url
  unfolding create
  endpoint-create endpoint_url bearer_token c e =
      let parsed = urlparse endpoint_url in
      elim (Bool-cases (not (str_eq app_env "development") && not (str_eq parsed.scheme "https"))) [
        | inl refused ↦ absurd (ground (arith, e, refused))
        | inr made ↦ ground (arith, e, made)
      ]

  -- Outside of development, a connector that is created has an endpoint whose scheme is https.
  create-scheme :
      (endpoint_url : String) (bearer_token : Option String) (c : Connector)
      → str_eq app_env "development" ≡ false
      → create endpoint_url bearer_token ≡ ok c
      → str_eq (urlparse c.endpoint_url).scheme "https" ≡ true
  unfolding create
  create-scheme endpoint_url bearer_token c outside e =
      elim (Bool-cases (str_eq (urlparse endpoint_url).scheme "https")) [
        | inl https ↦ rw (endpoint-create endpoint_url bearer_token c e) https
        | inr other ↦ absurd (ground (arith, outside, e, other))
      ]

-- `if self.bearer_token`
abbrev pub authorization : Option String → List (String × String)
authorization none = []
authorization (some t) = if str_eq t "" then [] else ("Authorization", str_append "Bearer " t) ∷ []

-- the headers of an interaction
abbrev pub headers_of : Connector → List (String × String)
headers_of c = ("Content-Type", "application/json") ∷ authorization c.bearer_token
