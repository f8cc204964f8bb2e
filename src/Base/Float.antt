-- ===== src/Base/Float.antt =====
-- Python's `float`, as an interface: the program adds, subtracts, divides and compares floats, and
-- nothing here says how they are rounded.
use Prim.Native.Nat.{ℕ}
use mathlib.Core.Bool.{Bool}

pub record Floats : Type 1 where
  pub Float : Type 0
  -- `decimal n k` is the literal n / 10 ^ k
  pub decimal : ℕ → ℕ → Float
  pub add : Float → Float → Float
  pub sub : Float → Float → Float
  pub div : Float → Float → Float
  pub lt : Float → Float → Bool
  pub eq : Float → Float → Bool
