-- ===== src/Core/Redis.antt =====
-- A counter of Redis under one key, with the time when it expires.
use crucible.Base.{ℕ, suc, ◌+◌, ◌-◌, Option, none, some, ltb, if◌then◌else◌}

pub record Counter : Type 0 where
  pub value : ℕ
  pub expires_at : Option ℕ

-- the key as a command at the time `now` finds it: an expired key is gone
unfoldable pub alive : (now : ℕ) → Option Counter → Option Counter
alive now none = none
alive now (some c) = elim c.expires_at [
  | none ↦ some c
  | some t ↦ if ltb now t then some c else none
]

-- `INCR`: a missing key counts as 0
unfoldable pub incr : (now : ℕ) → Option Counter → ℕ × Counter
unfolding alive
incr now key = elim (alive now key) [
  | none ↦ (1, record { value = 1; expires_at = none })
  | some c ↦ (suc c.value, record c { value = suc c.value })
]

-- `EXPIRE`
abbrev pub expire : (now seconds : ℕ) → Counter → Counter
expire now seconds c = record c { expires_at = some (now + seconds) }

-- `TTL`, where a value below 1 is 0
abbrev pub ttl : (now : ℕ) → Counter → ℕ
ttl now c = elim c.expires_at [ none ↦ 0 | some t ↦ t - now ]
