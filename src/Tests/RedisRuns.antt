-- ===== src/Tests/RedisRuns.antt =====
-- Counters of Redis with concrete times.
use crucible.Base.{ℕ, suc, ◌<◌, ◌≡◌, refl, List, [], ◌∷◌, none, arith, length, map, All}
use crucible.Core.Redis.{alive}
use crucible.Core.RateLimit.{auth, dispatch_all, max_requests}
use crucible.Core.RateLimit.Window.{below, is_passed, dispatch_all-below}

-- twelve requests of one client at the login, within one minute of the first at 100
abbrev times : List ℕ
times = 101 ∷ 102 ∷ 103 ∷ 104 ∷ 105 ∷ 106 ∷ 107 ∷ 108 ∷ 109 ∷ 110 ∷ 159 ∷ []

times_early : (n : ℕ) → 160 ≡ n → All (λ t. t < n) times
times_early n e = ground (arith, e)

dispatch_all-below_example :
    map is_passed (dispatch_all auth (100 ∷ times) none)
    ≡ below (max_requests auth) 0 (suc (length times))
unfolding alive
dispatch_all-below_example = dispatch_all-below auth 100 times none refl (times_early 160 refl)

abbrev failures : List ℕ
failures = 101 ∷ 120 ∷ 158 ∷ []

failures_early : (n : ℕ) → 160 ≡ n → All (λ t. t < n) failures
failures_early n e = ground (arith, e)
