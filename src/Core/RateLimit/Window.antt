-- ===== src/Core/RateLimit/Window.antt =====
-- How many requests a window lets through: src/backend/core/rate_limit.py.
use crucible.Base.{
  ℕ, suc, ◌+◌, ◌≤◌, ◌<◌, ◌≡◌, Bool, true, false, List, [], ◌∷◌, Option, none, some, arith, map,
  zero, ltb, length, All,
}
use crucible.Core.Redis.{Counter, alive, incr}
use crucible.Core.RateLimit.{
  Tier, auth, default, max_requests, window_seconds, Verdict, too_many_requests, passed, dispatch,
  dispatch_all,
}

abbrev pub is_passed : Verdict → Bool
is_passed (too_many_requests _) = false
is_passed (passed _ _) = true

-- Of `n` requests, counted on from number `i`, those with a number below the limit are let through.
abbrev pub below : (limit i n : ℕ) → List Bool
below limit i zero = []
below limit i (suc n) = ltb i limit ∷ below limit (suc i) n

-- the requests that a running window of `value` requests still lets through
window-rest :
    (tier : Tier) (ends value : ℕ) (times : List ℕ)
    → 1 ≤ value
    → All (λ t. t < ends) times
    → map is_passed
        (dispatch_all tier times (some (record { value = value; expires_at = some ends })))
      ≡ below (max_requests tier) value (length times)
unfolding dispatch_all dispatch incr alive
window-rest tier ends value [] v h = λ i. []
window-rest tier ends value (t ∷ ts) v (k, h) =
    ground (arith, window-rest tier ends (suc value) ts (omega arith) h)

-- Of the requests of one client in a window, which starts with a request that finds no key and has
-- the length of the tier's window, the middleware passes those with a number below the tier's limit,
-- counted from 0, and refuses each later one.
pub dispatch_all-below :
    (tier : Tier) (start : ℕ) (times : List ℕ) (key : Option Counter)
    → alive start key ≡ none
    → All (λ t. t < start + window_seconds tier) times
    → map is_passed (dispatch_all tier (start ∷ times) key)
      ≡ below (max_requests tier) 0 (suc (length times))
unfolding dispatch_all dispatch incr
dispatch_all-below auth start times key gone h =
    ground (arith, window-rest auth (start + 60) 1 times (omega arith) h)
dispatch_all-below default start times key gone h =
    ground (arith, window-rest default (start + 60) 1 times (omega arith) h)
