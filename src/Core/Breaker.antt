-- ===== src/Core/Breaker.antt =====
-- src/backend/connectors/target_agent.py: `CircuitBreaker`, on one key of Redis that all workers share.
-- A failing Redis lets every call through and counts nothing.
pub mod Opens
use crucible.Base.{
  ℕ, Bool, List, [], ◌∷◌, true, false, Option, none, some, leb, ◌==◌, if◌then◌else◌,
}
use crucible.Core.Redis.{Counter, alive, incr, expire}

-- The commands, or that Redis raises.
pub data Redis : Type 0 where
  up down : Redis

unfoldable pub record_failure : Redis → (now : ℕ) → Option Counter → Option Counter
unfolding incr
record_failure down now key = key
record_failure up now key =
    let (failures, c) = incr now key in some (if failures == 1 then expire now 60 c else c)

unfoldable pub record_success : Redis → Option Counter → Option Counter
record_success down key = key
record_success up key = none

-- `failure_threshold` is 4 unless it is given
unfoldable pub is_open : (failure_threshold : ℕ) → Redis → (now : ℕ) → Option Counter → Bool
unfolding alive
is_open failure_threshold down now key = false
is_open failure_threshold up now key = elim (alive now key) [
  | none ↦ false
  | some c ↦ leb failure_threshold c.value
]

-- the failures that the workers record, at their times
unfoldable pub fail_all : List ℕ → Option Counter → Option Counter
unfolding record_failure
fail_all [] key = key
fail_all (now ∷ later) key = fail_all later (record_failure up now key)
