-- ===== src/Core/RateLimit/Client.antt =====
-- src/backend/core/rate_limit.py: `_get_client_ip`. `is_space` tells which code points Python's
-- `strip` takes off.
use Prim.Native.Char.{code}
use text.Mathlib.Text.{◌==◌ as str_eq}
use crucible.Base.{ℕ, String, Bool, ◌&&◌, Option, none, some, ◌==◌, if◌then◌else◌}

-- what the middleware reads of a request
pub record Request : Type 0 where
  pub path : String
  pub forwarded : Option String
  pub host : Option String

-- `text.split(",")[0]`
unfoldable pub before_comma : String → String
before_comma String.[] = String.[]
before_comma (String.◌∷◌ c s) =
    let rest = before_comma s in if code c == 44 then String.[] else String.◌∷◌ c rest

abbrev pub strip_left : (is_space : ℕ → Bool) → String → String
strip_left is_space String.[] = String.[]
strip_left is_space (String.◌∷◌ c s) =
    let rest = strip_left is_space s in if is_space (code c) then rest else String.◌∷◌ c s

abbrev pub strip_right : (is_space : ℕ → Bool) → String → String
strip_right is_space String.[] = String.[]
strip_right is_space (String.◌∷◌ c s) =
    let rest = strip_right is_space s in
    if is_space (code c) && str_eq rest "" then String.[] else String.◌∷◌ c rest

-- `text.strip()`
unfoldable pub strip : (is_space : ℕ → Bool) → String → String
strip is_space s = strip_right is_space (strip_left is_space s)

-- `request.client.host if request.client else "unknown"`
abbrev pub host_of : Option String → String
host_of none = "unknown"
host_of (some h) = h

unfoldable pub get_client_ip : (is_space : ℕ → Bool) → Request → String
unfolding before_comma strip
get_client_ip is_space r = elim r.forwarded [
  | none ↦ host_of r.host
  | some f ↦ if str_eq f "" then host_of r.host else strip is_space (before_comma f)
]
