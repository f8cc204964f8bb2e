-- ===== src/Core/RateLimit.antt =====
-- src/backend/core/rate_limit.py: the middleware, for the key of one tier and client. The commands
-- of one request run at one time.
pub mod Window
pub mod Client
pub mod Middleware
pub mod Runs
use Prim.Native.String.{len, find as str_find}
use text.Mathlib.Text.{◌==◌ as str_eq}
use crucible.Base.{
  ℕ, suc, ◌-◌, String, Bool, true, false, ◌||◌, List, [], ◌∷◌, Option, none, some, ◌==◌, ltb,
  if◌then◌else◌,
}
use crucible.Core.Redis.{Counter, incr, expire, ttl}

pub data Tier : Type 0 where
  auth default : Tier

-- `RATE_LIMITS`
abbrev pub max_requests : Tier → ℕ
max_requests auth = 10
max_requests default = 60

abbrev pub window_seconds : Tier → ℕ
window_seconds auth = 60
window_seconds default = 60

-- `path in EXEMPT_PATHS`
abbrev pub is_exempt : String → Bool
is_exempt path =
    str_eq path "/health"
    || str_eq path "/docs"
    || str_eq path "/redoc"
    || str_eq path "/openapi.json"

-- `_get_tier`; `contains path part` is Python's `part in path`
unfoldable pub get_tier : (contains : String → String → Bool) → String → Option Tier
get_tier contains path =
    if is_exempt path
    then none
    else if contains path "/auth/login" || contains path "/auth/register"
    then some auth
    else some default

-- What the middleware does with a request: it answers 429 with `Retry-After`, or it passes the
-- request on and sets the headers `X-RateLimit-Remaining` and `X-RateLimit-Reset`.
pub data Verdict : Type 0 where
  too_many_requests : (retry_after : ℕ) → Verdict
  passed : (remaining reset : ℕ) → Verdict

-- `ttl if ttl > 0 else window`
abbrev pub reset_of : (ttl window : ℕ) → ℕ
reset_of left window = if ltb 0 left then left else window

-- `dispatch`, behind the exempt paths, where Redis answers
unfoldable pub dispatch : Tier → (now : ℕ) → Option Counter → Verdict × Counter
unfolding incr
dispatch tier now key =
    let (current, c) = incr now key in
    let c' = if current == 1 then expire now (window_seconds tier) c else c in
    let reset = reset_of (ttl now c') (window_seconds tier) in
    (
      if ltb (max_requests tier) current
          then too_many_requests reset
          else passed (max_requests tier - current) reset,
      c',
    )

-- the requests of one client, at their times
unfoldable pub dispatch_all : Tier → List ℕ → Option Counter → List Verdict
unfolding dispatch
dispatch_all tier [] key = []
dispatch_all tier (now ∷ later) key =
    let (v, c) = dispatch tier now key in v ∷ dispatch_all tier later (some c)
