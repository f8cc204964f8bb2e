-- ===== src/Core/Security/Expiry.antt =====
-- How long a session's tokens open the API: src/backend/core/security.py with
-- src/backend/api/routes/auth.py and src/backend/api/deps.py.
use text.Mathlib.Text.{◌==◌ as str_eq}
use crucible.Base.{
  ℕ, ◌+◌, ◌*◌, ◌≡◌, ◌≢◌, refl, ap, ◌∙◌, String, Bool, true, false, List, [], ◌∷◌, none, some, arith,
  ltb, find?, All, All-find?, ◌==◌, ==_refl, str_eq_false, if◌then◌else◌, Option-cases, Bool-cases,
  inl, inr,
}
use crucible.Db.Models.{User}
use crucible.Api.Http.{ok, http_exception, could_not_validate}
use crucible.Api.Auth.{Token, login, get_current_user, user_of}
use crucible.Core.Security.{Payload, Tokens, create_access_token, create_refresh_token, codec}

-- what is known of PyJWT and of the texts of UUIDs: a token gives its payload back until it expires
pub record IsJwt (env : Tokens) : Type 0 where
  pub decode-encode :
      (now : ℕ) (p : Payload)
      → env.jwt_decode now (env.jwt_encode p)
        ≡ (if ltb now p.exp then some (record { sub = some p.sub; type = p.type }) else none)
  pub encode_ne : (p : Payload) → env.jwt_encode p ≢ ""
  pub uuid-str : (i : ℕ) → env.uuid (env.str i) ≡ some i

-- no two users have one id
abbrev pub HasUniqueIds : List User → Type 0
HasUniqueIds [] = Unit
HasUniqueIds (u ∷ us) = All (λ v. u.id ≢ v.id) us × HasUniqueIds us

find?-by_id :
    (p : User → Bool) (users : List User) (u : User)
    → HasUniqueIds users
    → find? p users ≡ some u
    → find? (λ x. x.id == u.id) users ≡ some u
find?-by_id p [] u h e = absurd (ground arith)
find?-by_id p (x ∷ xs) u (h, hs) e = elim (Bool-cases (p x)) [
  | inl hit ↦
      let same : x ≡ u = ground arith in
      let itself : (x.id == u.id) ≡ true = ap (λ (y : User). y.id == u.id) same ∙ ==_refl u.id in
      rw itself (ap some same)
  | inr miss ↦
      let later : find? p xs ≡ some u = ground arith in
      let other : x.id ≢ u.id = All-find? (λ v. x.id ≢ v.id) p xs h later in
      let apart : (x.id == u.id) ≡ false = ground (arith, other) in
      rw apart (find?-by_id p xs u hs later)
]

module _ (env : Tokens) (jwt : IsJwt env) (users : List User) where
  open env use {jwt_encode, str}

  -- what a token for a stored user's id leads to
  bearer :
      (later : ℕ) (p : Payload) (u : User)
      → p.sub ≡ str u.id
      → find? (λ x. x.id == u.id) users ≡ some u
      → u.is_active ≡ true
      → get_current_user (codec env later) users (some (jwt_encode p))
        ≡ (if ltb later p.exp then ok u else http_exception 401 could_not_validate)
  unfolding codec get_current_user user_of
  bearer later p u subject stored active =
      let given = str_eq_false (jwt_encode p) "" (jwt.encode_ne p) in
      let payload = jwt.decode-encode later p in
      let id = ap env.uuid subject ∙ jwt.uuid-str u.id in
      elim (Bool-cases (ltb later p.exp)) [
        | inl alive ↦
            rw (get_current_user, codec, given, payload, alive, id, user_of, stored, active) refl
        | inr over ↦ rw (get_current_user, codec, given, payload, over) refl
      ]

  -- who logs in
  login_user :
      (now : ℕ) (username password : String) (token : Token) (cookie : String)
      → login (codec env now) users username password ≡ ok (token, cookie)
      → (u : User) × (find? (λ x. str_eq x.email (env.lower username)) users ≡ some u)
        × (u.is_active ≡ true)
        × (token.access_token ≡ create_access_token env now (str u.id) none)
        × (cookie ≡ create_refresh_token env now (str u.id))
  unfolding login codec
  login_user now username password token cookie h =
      elim (Option-cases (find? (λ x. str_eq x.email (env.lower username)) users)) [
        | inl unknown ↦ absurd (ground arith)
        | inr (u, e) ↦ elim (Bool-cases u.is_active) [
          | inr inactive ↦ absurd (ground arith)
          | inl active ↦ (u, e, active, ground arith, ground arith)
        ]
      ]

  module _ (unique : HasUniqueIds users) (now : ℕ) (username password : String) (token : Token)
      (cookie : String)
      (logged_in : login (codec env now) users username password ≡ ok (token, cookie)) where
    -- The access token that a login gives opens the API as the user with the lowered name as email,
    -- until the minutes of the setting are over, and is answered with status 401 from then on.
    pub get_current_user-login :
        (u : User) × (find? (λ x. str_eq x.email (env.lower username)) users ≡ some u)
        × ((later : ℕ)
            → get_current_user (codec env later) users (some token.access_token) ≡ (
                if ltb later (now + env.access_minutes * 60)
                then ok u
                else http_exception 401 could_not_validate))
    unfolding create_access_token
    get_current_user-login =
        let (u, found, active, access, _) =
          login_user now username password token cookie logged_in in
        let stored = find?-by_id (λ x. str_eq x.email (env.lower username)) users u unique found in
        let p : Payload = record {
          exp = now + env.access_minutes * 60;
          sub = str u.id;
          type = none;
        } in
        (u, found, λ later. rw access (bearer later p u refl stored active))

    -- The refresh cookie of a login, sent as an access token, opens the API as the same user for
    -- seven days.
    pub get_current_user_refresh :
        (u : User) × (find? (λ x. str_eq x.email (env.lower username)) users ≡ some u)
        × ((later : ℕ)
            → get_current_user (codec env later) users (some cookie)
              ≡ (if ltb later (now + 604800) then ok u else http_exception 401 could_not_validate))
    unfolding create_refresh_token
    get_current_user_refresh =
        let (u, found, active, _, refresh) =
          login_user now username password token cookie logged_in in
        let stored = find?-by_id (λ x. str_eq x.email (env.lower username)) users u unique found in
        let p : Payload = record { exp = now + 604800; sub = str u.id; type = some "refresh" } in
        (u, found, λ later. rw refresh (bearer later p u refl stored active))
