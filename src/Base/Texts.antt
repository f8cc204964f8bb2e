-- ===== src/Base/Texts.antt =====
-- The comparison of texts.
use text.Mathlib.Text.{◌==◌}
use text.Mathlib.TextLemmas.{nil-append, cons-append, cons-eq-cons}
use text.Mathlib.TextEquality.{eq_iff}
use Prim.Native.Char.{Char, char, code}
use Prim.Native.String.{String, ◌++◌}
use mathlib.Core.Path.{◌≡◌, refl, sym, ◌∙◌}
use mathlib.Core.Logic.{◌≢◌, inl, inr}
use mathlib.Core.Bool.{Bool, true, false, ◌||◌}
use native.Mathlib.Omega.{arith}
use crucible.Base.Tests.{Bool-cases, ◌==◌ as ◌==_ℕ◌}

pub str_eq_refl : (s : String) → (s == s) ≡ true
str_eq_refl s = (eq_iff s s).1 refl

pub str_eq_sound : (s t : String) → (s == t) ≡ true → s ≡ t
str_eq_sound s t = (eq_iff s t).0

pub str_eq_false : (s t : String) → s ≢ t → (s == t) ≡ false
str_eq_false s t h = elim (Bool-cases (s == t)) [
  | inl same ↦ absurd (h ((eq_iff s t).0 same))
  | inr other ↦ other
]

abbrev pub slash : Char
slash = char 47 tt

abbrev pub has_slash : String → Bool
has_slash String.[] = false
has_slash (String.◌∷◌ c s) = code c ==_ℕ 47 || has_slash s

is_slash : (c : Char) → c ≡ slash → (code c ==_ℕ 47) ≡ true
is_slash c e = rw e refl

-- Two texts without a slash, each before a slash, are equal where the whole is.
pub slash_inj :
    (s s' z z' : String)
    → has_slash s ≡ false
    → has_slash s' ≡ false
    → s ++ String.◌∷◌ slash z ≡ s' ++ String.◌∷◌ slash z'
    → (s ≡ s') × (z ≡ z')
slash_inj String.[] String.[] z z' h h' e = (
  refl,
  (cons-eq-cons.0 (sym (nil-append (String.◌∷◌ slash z)) ∙ e ∙ nil-append (String.◌∷◌ slash z'))).1,
)
slash_inj String.[] (String.◌∷◌ d t) z z' h h' e =
    let same =
      (cons-eq-cons.0
        (sym (nil-append (String.◌∷◌ slash z)) ∙ e ∙ cons-append d t (String.◌∷◌ slash z'))).0 in
    let found = is_slash d (sym same) in absurd (ground (arith, found))
slash_inj (String.◌∷◌ c s) String.[] z z' h h' e =
    let same =
      (cons-eq-cons.0
        (sym (cons-append c s (String.◌∷◌ slash z)) ∙ e ∙ nil-append (String.◌∷◌ slash z'))).0 in
    let found = is_slash c same in absurd (ground (arith, found))
slash_inj (String.◌∷◌ c s) (String.◌∷◌ d t) z z' h h' e =
    let both =
      cons-eq-cons.0
        (sym (cons-append c s (String.◌∷◌ slash z)) ∙ e ∙ cons-append d t (String.◌∷◌ slash z')) in
    let rest = slash_inj s t z z' (ground arith) (ground arith) both.1 in
    (cons-eq-cons.1 (both.0, rest.0), rest.1)
