-- ===== src/Api/Auth.antt =====
-- src/backend/api/deps.py and src/backend/api/routes/auth.py: who may call. The password hash and
-- the token codec are parameters: `decode` is `none` where `jwt.decode` raises.
pub mod Sessions
use text.Mathlib.Text.{◌==◌ as str_eq}
use crucible.Base.{
  ℕ, ◌+◌, String, Bool, true, false, not, List, [], ◌∷◌, Option, none, some, ◌==◌, ltb, ◌&&◌, any,
  find?, if◌then◌else◌,
}
use crucible.Db.Models.{User}
use crucible.Api.Http.{
  Response, ok, http_exception, not_authenticated, could_not_validate, token_subject_missing,
  invalid_subject_format, user_not_found, inactive_user, incorrect_credentials, refresh_missing,
  invalid_token_type, invalid_token_subject, invalid_refresh_token, refresh_revoked,
}

-- the payload of a token
pub record Claims : Type 0 where
  pub sub : Option String
  pub type : Option String

-- a key `blocklist:…` of Redis with the time when it expires
pub record Revoked : Type 0 where
  pub token : String
  pub expires_at : ℕ

pub record Token : Type 0 where
  pub access_token : String
  pub token_type : String

pub record Codec : Type 0 where
  pub decode : String → Option Claims
  pub uuid : String → Option ℕ
  pub str : ℕ → String
  pub create_access_token : (subject : String) → String
  pub create_refresh_token : (subject : String) → String
  pub verify_password : (plain hashed : String) → Bool
  pub lower : String → String

-- `if not text`
abbrev pub is_missing : Option String → Bool
is_missing none = true
is_missing (some t) = str_eq t ""

abbrev pub or_empty : Option String → String
or_empty none = ""
or_empty (some t) = t

-- `redis.get(f"blocklist:{refresh_token}")`
abbrev pub is_blocked : (now : ℕ) → String → List Revoked → Bool
is_blocked now token = any (λ r. str_eq r.token token && ltb now r.expires_at)

-- 7 * 24 * 60 * 60 seconds
abbrev pub refresh_lifetime : ℕ
refresh_lifetime = 604800

module _ (codec : Codec) where
  open codec use {
    decode, uuid, str, create_access_token, create_refresh_token, verify_password, lower,
  }

  unfoldable pub user_of : (users : List User) → (user_id : ℕ) → Response User
  user_of users user_id = elim (find? (λ u. u.id == user_id) users) [
    | none ↦ http_exception 404 user_not_found
    | some user ↦ if not user.is_active then http_exception 400 inactive_user else ok user
  ]

  unfoldable pub get_current_user : (users : List User) → (token : Option String) → Response User
  unfolding user_of
  get_current_user users token =
      let text = or_empty token in
      if is_missing token then http_exception 401 not_authenticated else elim (decode text) [
        | none ↦ http_exception 401 could_not_validate
        | some token_data ↦ elim token_data.sub [
          | none ↦ http_exception 401 token_subject_missing
          | some sub ↦ elim (uuid sub) [
            | none ↦ http_exception 401 invalid_subject_format
            | some user_id ↦ user_of users user_id
          ]
        ]
      ]

  -- the response's token and the refresh cookie
  unfoldable pub login :
      (users : List User) → (username password : String) → Response (Token × String)
  login users username password = elim (find? (λ u. str_eq u.email (lower username)) users) [
    | none ↦ http_exception 400 incorrect_credentials
    | some user ↦
        if not (verify_password password user.hashed_password)
        then http_exception 400 incorrect_credentials
        else if not user.is_active
        then http_exception 400 inactive_user
        else ok (
          record { access_token = create_access_token (str user.id); token_type = "bearer" },
          create_refresh_token (str user.id),
        )
  ]

  -- `payload.get("type") != "refresh"`
  abbrev is_refresh : Claims → Bool
  is_refresh c = elim c.type [ none ↦ false | some t ↦ str_eq t "refresh" ]

  unfoldable pub refresh_token :
      (now : ℕ) → List Revoked → (cookie : Option String) → Response Token
  refresh_token now revoked cookie =
      let token = or_empty cookie in
      if is_missing cookie then http_exception 401 refresh_missing else elim (decode token) [
        | none ↦ http_exception 401 invalid_refresh_token
        | some payload ↦
            let user_id = or_empty payload.sub in
            if not (is_refresh payload)
            then http_exception 401 invalid_token_type
            else if is_missing payload.sub
            then http_exception 401 invalid_token_subject
            else if is_blocked now token revoked
            then http_exception 401 refresh_revoked
            else ok (record { access_token = create_access_token user_id; token_type = "bearer" })
      ]

-- the blocklist that `setex` leaves; the cookie is deleted in the browser
unfoldable pub logout : (now : ℕ) → (cookie : Option String) → List Revoked → List Revoked
logout now cookie revoked =
    let token = or_empty cookie in
    if is_missing cookie
    then revoked
    else record { token = token; expires_at = now + refresh_lifetime } ∷ revoked
