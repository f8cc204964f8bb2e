-- ===== src/Api/Auth/Sessions.antt =====
-- What a session is worth: src/backend/api/deps.py, src/backend/api/routes/auth.py.
use text.Mathlib.Text.{◌==◌ as str_eq}
use text.Mathlib.TextEquality.{eq_iff}
use crucible.Base.{
  Bool-cases, Option-cases, inl, inr, ◌∷◌, ℕ, ◌+◌, ◌<◌, ◌≡◌, refl, sym, String, true, List, Option,
  none, some, arith, ◌==◌, find?, find?-passes, ==_sound,
}
use crucible.Db.Models.{User}
use crucible.Api.Http.{Response, ok, http_exception}
use crucible.Api.Auth.{
  is_blocked, Codec, Claims, Revoked, refresh_lifetime, get_current_user, user_of, refresh_token,
  logout,
}

-- the response raises this status code
abbrev pub Fails : {A : Type 0} → ℕ → Response A → Type 0
Fails c (ok a) = ⊥
Fails c (http_exception d _) = d ≡ c

module _ (codec : Codec) where
  blocked :
      (now later : ℕ) (t : String) (revoked : List Revoked)
      → later < now + refresh_lifetime
      → is_blocked later t (record { token = t; expires_at = now + refresh_lifetime } ∷ revoked)
        ≡ true
  blocked now later t revoked h = ground (arith, (eq_iff t t).1 refl)

  -- For seven days after a logout, and as long as nobody removes keys from the blocklist, the
  -- refresh token of that session is answered with status 401.
  pub refresh_token-logout :
      (now later : ℕ) (cookie : Option String) (revoked : List Revoked)
      → later < now + refresh_lifetime
      → Fails 401 (refresh_token codec later (logout now cookie revoked) cookie)
  unfolding refresh_token logout
  refresh_token-logout now later none revoked h = refl
  refresh_token-logout now later (some t) revoked h = elim (Bool-cases (str_eq t "")) [
    | inl blank ↦ rw (blank, refresh_token) refl
    | inr given ↦
        let stop = blocked now later t revoked h in rw (given, refresh_token) (ground (arith, stop))
  ]

  user_of_sound :
      (users : List User) (i : ℕ) {u : User}
      → user_of codec users i ≡ ok u
      → (i ≡ u.id) × (u.is_active ≡ true)
  unfolding user_of
  user_of_sound users i {u} h = elim (Option-cases (find? (λ x. x.id == i) users)) [
    | inl none_found ↦ absurd (ground arith)
    | inr (x, e) ↦
        let found : (x.id == i) ≡ true = find?-passes (λ x. x.id == i) users e in
        elim (Bool-cases x.is_active) [
          | inl active ↦
              let same : x ≡ u = ground arith in
              (rw (← same) (sym (==_sound x.id i found)), rw (← same) active)
          | inr inactive ↦ absurd (ground arith)
        ]
  ]

  -- A call is let through only with a token whose subject is the id of a stored active user, who is the caller.
  pub get_current_user_sound :
      (users : List User) (token : String) {u : User}
      → get_current_user codec users (some token) ≡ ok u
      → (c : Claims) × (s : String) × (codec.decode token ≡ some c)
        × (c.sub ≡ some s)
        × (codec.uuid s ≡ some u.id)
        × (u.is_active ≡ true)
  unfolding get_current_user user_of
  get_current_user_sound users token {u} h = elim (Bool-cases (str_eq token "")) [
    | inl blank ↦ absurd (ground arith)
    | inr given ↦ elim (Option-cases (codec.decode token)) [
      | inl bad ↦ absurd (ground arith)
      | inr (c, ec) ↦ elim (Option-cases c.sub) [
        | inl missing ↦ absurd (ground arith)
        | inr (s, es) ↦ elim (Option-cases (codec.uuid s)) [
          | inl bad ↦ absurd (ground arith)
          | inr (i, ei) ↦
              let (same, active) = user_of_sound users i {u = u} (ground arith) in
              (c, s, ec, es, rw (← same) ei, active)
        ]
      ]
    ]
  ]
