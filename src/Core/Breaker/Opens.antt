-- ===== src/Core/Breaker/Opens.antt =====
-- When the circuit breaker of src/backend/connectors/target_agent.py is open.
use crucible.Base.{
  ℕ, suc, ◌+◌, ◌<◌, ◌≤◌, ◌≡◌, List, [], ◌∷◌, Option, none, some, arith, length, leb, ltb,
  if◌then◌else◌, All, false,
}
use crucible.Core.Redis.{Counter, alive, incr}
use crucible.Core.Breaker.{up, record_failure, is_open, fail_all}

fail_all-running :
    (ends value : ℕ) (times : List ℕ)
    → 1 ≤ value
    → All (λ t. t < ends) times
    → fail_all times (some (record { value = value; expires_at = some ends }))
      ≡ some (record { value = value + length times; expires_at = some ends })
unfolding fail_all record_failure incr alive
fail_all-running ends value [] v h = ground arith
fail_all-running ends value (t ∷ ts) v (k, h) =
    ground (arith, fail_all-running ends (suc value) ts (omega arith) h)

-- Where Redis answers, the breaker counts the failures from a first one that finds no key: for 60
-- seconds from this one it is open if and only if there were as many failures as the threshold,
-- and then it is closed, also if failures came later than the first.
pub is_open-count :
    (threshold start now : ℕ) (times : List ℕ) (key : Option Counter)
    → alive start key ≡ none
    → All (λ t. t < start + 60) times
    → is_open threshold up now (fail_all (start ∷ times) key)
      ≡ (if ltb now (start + 60) then leb threshold (suc (length times)) else false)
unfolding fail_all record_failure incr is_open alive
is_open-count threshold start now times key gone h =
    ground (arith, fail_all-running (start + 60) 1 times (omega arith) h)
