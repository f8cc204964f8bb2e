-- ===== src/Tests/AccountRuns.antt =====
-- Registrations, passwords, tickets and tokens on concrete data.
use text.Mathlib.Text.{◌==◌ as str_eq}
use crucible.Base.{
  ℕ, ◌≡◌, ◌↔◌, refl, String, Bool, true, false, List, [], ◌∷◌, none, some, arith, ltb, find?,
  if◌then◌else◌,
}
use crucible.Db.Models.{User}
use crucible.Api.Http.{Response, ok, http_exception, could_not_validate, invalid_ticket}
use crucible.Api.Password.{validate_password_strength, accepted}
use crucible.Api.Password.Strength.{IsStrong, validate_password_strength_iff}
use crucible.Api.Register.{Accounts, UserRegister, Registrar, register}
use crucible.Api.Register.Slug.{AreUnique, register-returns}
use crucible.Api.Auth.{Token, login, get_current_user}
use crucible.Api.Stream.{Ticket, get_stream_ticket, authorize}
use crucible.Api.Stream.Tickets.{get_stream_ticket-authorize}
use crucible.Core.Security.{
  Credentials, dict, codec, create_access_token, create_refresh_token, verify_password,
  encrypt_credentials, decrypt_credentials,
}
use crucible.Core.Security.Encryption.{decrypt_credentials-encrypt_credentials}
use crucible.Core.Security.Expiry.{HasUniqueIds, get_current_user-login, get_current_user_refresh}
use crucible.Db.Run.{RunStatus}
use crucible.Tests.Data.{user, world, run_of}
use crucible.Tests.Codecs.{tokens, tokens-IsJwt, crypto, crypto-IsSound}
use crucible.Tests.Texts.{strokes, strokes_inj}

abbrev is_decimal : ℕ → Bool
is_decimal c = if ltb c 48 then false else ltb c 58

validate_password_strength_iff_example :
    (validate_password_strength is_decimal "Passw0rd" ≡ accepted) ↔ IsStrong is_decimal "Passw0rd"
validate_password_strength_iff_example = validate_password_strength_iff is_decimal "Passw0rd"

-- every company gets the slug "acme", which is taken
abbrev registrar : Registrar
registrar = record {
  lower = λ s. s;
  slugify = λ s. "acme";
  hex = "0";
  show = strokes;
  hash = λ s. s;
}

abbrev accounts : Accounts
accounts = record { users = []; tenants = record { id = 1; name = "Acme"; slug = "acme" } ∷ [] }

abbrev form : UserRegister
form = record { email = "b@example.com"; password = "Passw0rd"; name = "b"; company_name = "ACME" }

accounts-AreUnique : AreUnique accounts
accounts-AreUnique = record { slugs = λ slug. ground arith; emails = λ email. omega arith }

register-returns_example :
    (r : Response User × Accounts) × (register registrar form 2 3 accounts ≡ some r) × AreUnique r.1
register-returns_example =
    register-returns registrar form 2 3 accounts strokes_inj accounts-AreUnique

abbrev tickets : List Ticket
tickets = record { ticket = 9; run_id = 7; expires_at = 130 } ∷ []

get_stream_ticket-authorize_example :
    let (r, ts') = get_stream_ticket 7 user 9 100 world [] in
    (r ≡ ok 9)
    × ((authorize 7 9 129 ts').0 ≡ (if true then ok tt else http_exception 401 invalid_ticket))
    × ((authorize 7 9 129 (authorize 7 9 129 ts').1).0
        ≡ (if false then ok tt else http_exception 401 invalid_ticket))
get_stream_ticket-authorize_example =
    get_stream_ticket-authorize 7 user 9 100 world [] (run_of 7 RunStatus.pending) refl 129 7 129 7

abbrev credentials : Credentials String
credentials = dict "secret"

decrypt_credentials-encrypt_credentials_example :
    (t : String) × (encrypt_credentials crypto "a short key" 1 credentials ≡ some t)
    × (decrypt_credentials crypto "a short key" true t ≡ some credentials)
decrypt_credentials-encrypt_credentials_example =
    decrypt_credentials-encrypt_credentials crypto crypto-IsSound "a short key" 1 credentials

abbrev token : Token
token = record {
  access_token = create_access_token tokens 100 (strokes 2) none;
  token_type = "bearer";
}

abbrev cookie : String
cookie = create_refresh_token tokens 100 (strokes 2)

user-HasUniqueIds : HasUniqueIds (user ∷ [])
user-HasUniqueIds = (tt, tt)

logged_in : login (codec tokens 100) (user ∷ []) "u@example.com" "Passw0rd" ≡ ok (token, cookie)
unfolding login codec verify_password
logged_in = refl

get_current_user-login_example :
    (u : User) × (find? (λ x. str_eq x.email "u@example.com") (user ∷ []) ≡ some u)
    × ((later : ℕ)
        → get_current_user (codec tokens later) (user ∷ []) (some token.access_token)
          ≡ (if ltb later 1000 then ok u else http_exception 401 could_not_validate))
get_current_user-login_example =
    get_current_user-login tokens tokens-IsJwt (user ∷ []) user-HasUniqueIds 100 "u@example.com"
      "Passw0rd" token cookie logged_in

get_current_user_refresh_example :
    (u : User) × (find? (λ x. str_eq x.email "u@example.com") (user ∷ []) ≡ some u)
    × ((later : ℕ)
        → get_current_user (codec tokens later) (user ∷ []) (some cookie)
          ≡ (if ltb later 604900 then ok u else http_exception 401 could_not_validate))
get_current_user_refresh_example =
    get_current_user_refresh tokens tokens-IsJwt (user ∷ []) user-HasUniqueIds 100 "u@example.com"
      "Passw0rd" token cookie logged_in
