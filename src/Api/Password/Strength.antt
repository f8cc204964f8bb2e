-- ===== src/Api/Password/Strength.antt =====
-- Which passwords src/backend/schemas/user.py accepts.
use Prim.Native.Char.{Char, code}
use Prim.Native.String.{◌++◌, count}
use text.Mathlib.TextLemmas.{nil-append, cons-append}
use crucible.Base.{sym, ◌∙◌, ℕ, ◌≤◌, ◌≡◌, ap, ◌↔◌, inl, inr, String, Bool, true, arith, Bool-cases}
use crucible.Api.Password.{accepted, search, is_upper, is_lower, validate_password_strength}

-- somewhere in the text is a character of the class
abbrev pub Contains : (ℕ → Bool) → String → Type 0
Contains is_in v =
    (before : String) × (c : Char) × (after : String) × (v ≡ before ++ String.◌∷◌ c after)
    × (is_in (code c) ≡ true)

Contains-search : (is_in : ℕ → Bool) (v : String) → search is_in v ≡ true → Contains is_in v
Contains-search is_in String.[] h = cc
Contains-search is_in (String.◌∷◌ c s) h = elim (Bool-cases (is_in (code c))) [
  | inl hit ↦ (String.[], c, s, sym (nil-append _), hit)
  | inr miss ↦
      let (before, d, after, e, k) = Contains-search is_in s (ground arith) in
      (
        String.◌∷◌ c before,
        d,
        after,
        ap (λ t. String.◌∷◌ c t) e ∙ sym (cons-append c before (String.◌∷◌ d after)),
        k,
      )
]

search-append :
    (is_in : ℕ → Bool) (before : String) (c : Char) (after : String)
    → is_in (code c) ≡ true
    → search is_in (before ++ String.◌∷◌ c after) ≡ true
search-append is_in String.[] c after h = rw (nil-append (String.◌∷◌ c after)) (ground arith)
search-append is_in (String.◌∷◌ d before) c after h =
    rw (cons-append d before (String.◌∷◌ c after))
      (ground (arith, search-append is_in before c after h))

search-Contains : (is_in : ℕ → Bool) (v : String) → Contains is_in v → search is_in v ≡ true
search-Contains is_in v (before, c, after, e, h) = rw e (search-append is_in before c after h)

-- What the validator asks of a password.
pub record IsStrong (is_decimal : ℕ → Bool) (v : String) : Type 0 where
  pub long_enough : 8 ≤ count v
  pub short_enough : count v ≤ 128
  pub uppercase : Contains is_upper v
  pub lowercase : Contains is_lower v
  pub digit : Contains is_decimal v

tests :
    (is_decimal : ℕ → Bool) (v : String)
    → validate_password_strength is_decimal v ≡ accepted
    → (8 ≤ count v)
      × (count v ≤ 128)
      × (search is_upper v ≡ true)
      × (search is_lower v ≡ true)
      × (search is_decimal v ≡ true)
unfolding validate_password_strength
tests is_decimal v h = ground arith

-- A password is accepted exactly when it has 8 to 128 characters and contains an uppercase letter, a
-- lowercase letter and a digit.
pub validate_password_strength_iff :
    (is_decimal : ℕ → Bool) (v : String)
    → (validate_password_strength is_decimal v ≡ accepted) ↔ IsStrong is_decimal v
unfolding validate_password_strength
validate_password_strength_iff is_decimal v = (
  λ h.
      let (a, b, u, l, d) = tests is_decimal v h in
      record {
        long_enough = a;
        short_enough = b;
        uppercase = Contains-search is_upper v u;
        lowercase = Contains-search is_lower v l;
        digit = Contains-search is_decimal v d;
      },
  λ s. ground (
    arith,
    s.long_enough,
    s.short_enough,
    search-Contains is_upper v s.uppercase,
    search-Contains is_lower v s.lowercase,
    search-Contains is_decimal v s.digit,
  ),
)
