-- ===== src/Api/Password.antt =====
-- src/backend/schemas/user.py: `validate_password_strength` of `UserRegister`. A text is its code
-- points; `is_decimal` is what `\d` matches, the decimal digits of all scripts.
pub mod Strength
use Prim.Native.Char.{code}
use Prim.Native.String.{count}
use crucible.Base.{ℕ, String, Bool, false, not, ◌&&◌, ◌||◌, ltb, leb, if◌then◌else◌}

pub data PasswordError : Type 0 where
  too_short too_long no_uppercase no_lowercase no_digit : PasswordError

pub data Validated : Type 0 where
  accepted : Validated
  value_error : PasswordError → Validated

-- `re.search`, for a class of characters
abbrev pub search : (ℕ → Bool) → String → Bool
search is_in String.[] = false
search is_in (String.◌∷◌ c s) = is_in (code c) || search is_in s

-- `[A-Z]` and `[a-z]`
abbrev pub is_upper : ℕ → Bool
is_upper c = leb 65 c && leb c 90

abbrev pub is_lower : ℕ → Bool
is_lower c = leb 97 c && leb c 122

unfoldable pub validate_password_strength : (is_decimal : ℕ → Bool) → String → Validated
validate_password_strength is_decimal v =
    if ltb (count v) 8
    then value_error too_short
    else if ltb 128 (count v)
    then value_error too_long
    else if not (search is_upper v)
    then value_error no_uppercase
    else if not (search is_lower v)
    then value_error no_lowercase
    else if not (search is_decimal v)
    then value_error no_digit
    else accepted
