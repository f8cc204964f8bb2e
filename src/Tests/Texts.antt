-- ===== src/Tests/Texts.antt =====
-- Numbers as texts, for the parameters that print them: n strokes stand for n.
use crucible.Base.{ℕ, zero, suc, ◌≡◌, refl, ap, sym, ◌∙◌, String, false, has_slash}
use Prim.Native.Char.{nul}

abbrev pub strokes : ℕ → String
strokes zero = String.[]
strokes (suc n) = String.◌∷◌ nul (strokes n)

abbrev pub stroke_count : String → ℕ
stroke_count String.[] = 0
stroke_count (String.◌∷◌ c s) = suc (stroke_count s)

pub stroke_count-strokes : (n : ℕ) → stroke_count (strokes n) ≡ n
stroke_count-strokes zero = refl
stroke_count-strokes (suc n) = ap suc (stroke_count-strokes n)

pub strokes_inj : (i j : ℕ) → strokes i ≡ strokes j → i ≡ j
strokes_inj i j e = sym (stroke_count-strokes i) ∙ ap stroke_count e ∙ stroke_count-strokes j

pub strokes_no_slash : (i : ℕ) → has_slash (strokes i) ≡ false
strokes_no_slash zero = refl
strokes_no_slash (suc i) = strokes_no_slash i
