-- ===== src/Connectors/Target.antt =====
-- src/backend/connectors/target_agent.py: `SSRFSafeBackend` and `TargetAgentConnector`. Name
-- resolution, `ipaddress` and the HTTP client are parameters. A call is told apart by its attempt.
-- The client asks the backend for a connection, or takes one of its pool.
pub mod Dials
pub mod Create
pub mod Failures
use text.Mathlib.Text.{◌==◌ as str_eq}
use crucible.Base.{
  ℕ, zero, suc, String, Bool, true, false, not, ◌&&◌, ◌||◌, List, [], ◌∷◌, ◌++◌, Option, none, some,
  leb, if◌then◌else◌,
}
use crucible.Db.Run.{Exn}
use crucible.Worker.Result.{Result}
use crucible.Core.Redis.{Counter}
use crucible.Core.Breaker.{Redis, record_failure, record_success, is_open}

-- What `client.post` gives when it has a connection. The body of a response is JSON, or
-- `response.json()` raises.
pub data Exchange : Type 0 where
  response : (status_code : ℕ) (json : Result String) → Exchange
  request_error other_error : Exn → Exchange

-- What a dial of the backend leads to.
pub data Dial : Type 0 where
  connect : (ip : String) → Dial
  ssrf_violation index_error : Dial

-- The resolution gives addresses or raises `socket.gaierror`; `str` is the canonical text of an
-- address; `exn` is the exception that a failed dial raises.
pub record Network : Type 0 where
  pub getaddrinfo : (attempt : ℕ) → Option (List String)
  pub is_private : (ip : String) → Bool
  pub is_loopback : (ip : String) → Bool
  pub is_link_local : (ip : String) → Bool
  pub str : (ip : String) → String
  pub exn : Dial → Exn
  pub is_pooled : (attempt : ℕ) → Bool
  pub post : (attempt : ℕ) → Exchange
  pub is_success : (status_code : ℕ) → Bool

module _ (app_env : String) (net : Network) where
  open net use {
    getaddrinfo, is_private, is_loopback, is_link_local, str, exn, is_pooled, post, is_success,
  }

  abbrev pub is_restricted : String → Bool
  is_restricted ip =
      is_private ip || is_loopback ip || is_link_local ip || str_eq (str ip) "0.0.0.0"

  unfoldable pub connect_tcp : (attempt : ℕ) → Dial
  connect_tcp attempt = elim (getaddrinfo attempt) [
    | none ↦ ssrf_violation
    | some [] ↦ index_error
    | some (ip ∷ _) ↦
        if not (str_eq app_env "development") && is_restricted ip
        then ssrf_violation
        else connect ip
  ]

  -- one `client.post`: the addresses that it dials, and how it ends
  unfoldable pub post_once : (attempt : ℕ) → List String × Exchange
  unfolding connect_tcp
  post_once attempt = if is_pooled attempt then ([], post attempt) else elim (connect_tcp attempt) [
    | connect ip ↦ (ip ∷ [], post attempt)
    | ssrf_violation ↦ ([], other_error (exn ssrf_violation))
    | index_error ↦ ([], other_error (exn index_error))
  ]

  -- `@retry` for a `RequestError`, with `left` attempts after this one
  unfoldable pub send_from : (attempt left : ℕ) → List String × Exchange
  unfolding post_once
  send_from attempt zero = post_once attempt
  send_from attempt (suc left) =
      let (later, last) = send_from (suc attempt) left in
      let (ips, x) = post_once attempt in
      elim x [
        | request_error e ↦ (ips ++ later, last)
        | response code json ↦ (ips, response code json)
        | other_error e ↦ (ips, other_error e)
      ]

  unfoldable pub send_with_retry : List String × Exchange
  unfolding send_from
  send_with_retry = send_from 0 2

-- How `send_interaction` ends.
pub data Interaction : Type 0 where
  returned : (json : Result String) → Interaction
  raised_circuit_open : Interaction
  raised_http_status : (status_code : ℕ) → Interaction
  raised_request raised_other : Exn → Interaction

-- The call of `send_interaction` by one worker: the network that it meets, the times of its look at
-- the breaker and of its note in it, and whether Redis answers each.
pub record Call : Type 0 where
  pub network : Network
  pub checked_at : ℕ
  pub noted_at : ℕ
  pub at_check : Redis
  pub at_note : Redis

pub record Sent : Type 0 where
  pub dialed : List String
  pub interaction : Interaction
  pub key : Option Counter

module _ (app_env : String) where
  -- the `try` block and its handlers
  unfoldable pub send_closed : Call → Option Counter → Sent
  unfolding send_with_retry
  send_closed call key =
      let (ips, x) = send_with_retry app_env call.network in
      let failed = record_failure call.at_note call.noted_at key in
      elim x [
        | response code json ↦
            if call.network.is_success code
            then record {
              dialed = ips;
              interaction = returned json;
              key = record_success call.at_note key;
            }
            else record {
              dialed = ips;
              interaction = raised_http_status code;
              key = if leb 500 code then failed else key;
            }
        | request_error e ↦ record { dialed = ips; interaction = raised_request e; key = failed }
        | other_error e ↦ record { dialed = ips; interaction = raised_other e; key = key }
      ]

  -- the threshold of a connector's breaker is 4
  unfoldable pub send_interaction : Call → Option Counter → Sent
  unfolding send_closed
  send_interaction call key =
      if is_open 4 call.at_check call.checked_at key
      then record { dialed = []; interaction = raised_circuit_open; key = key }
      else send_closed call key

  -- calls of any workers, one after the other, for one host
  unfoldable pub send_all : List Call → Option Counter → Option Counter
  unfolding send_interaction
  send_all [] key = key
  send_all (call ∷ calls) key = send_all calls (send_interaction call key).key
