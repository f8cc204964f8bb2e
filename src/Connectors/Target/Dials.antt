-- ===== src/Connectors/Target/Dials.antt =====
-- Where the connector of src/backend/connectors/target_agent.py connects to.
use text.Mathlib.Text.{◌==◌ as str_eq}
use text.Mathlib.TextEquality.{eq_iff}
use crucible.Base.{
  ℕ, zero, suc, ◌≡◌, ◌≤◌, ◌≢◌, refl, String, false, [], ◌∷◌, ◌++◌, Option, arith, length, All,
  All-append, length-append, Bool-cases, Option-cases, inl, inr, str_eq_false, ◌⊎◌,
}
use crucible.Core.Redis.{Counter}
use crucible.Connectors.Target.{
  Network, Call, Dial, is_restricted, connect_tcp, post_once, send_from, send_with_retry,
  send_closed, send_interaction,
}

-- no private, loopback, link-local or unspecified address
pub IsPublic : Network → String → Type 0
IsPublic net ip =
    (net.is_private ip ≡ false)
    × (net.is_loopback ip ≡ false)
    × (net.is_link_local ip ≡ false)
    × (net.str ip ≢ "0.0.0.0")

module _ (app_env : String) where
  module _ (net : Network) where
    is_restricted-IsPublic : (ip : String) → is_restricted app_env net ip ≡ false → IsPublic net ip
    unfolding IsPublic
    is_restricted-IsPublic ip h = (
      ground arith,
      ground arith,
      ground arith,
      λ e. ground (arith, (eq_iff (net.str ip) "0.0.0.0").1 e),
    )

    post_once-length : (attempt : ℕ) → length (post_once app_env net attempt).0 ≤ 1
    unfolding post_once
    post_once-length attempt = ground arith

    -- an attempt that leads to another one, and one that does not
    send_from_dialed :
        (attempt left : ℕ)
        → ((send_from app_env net attempt (suc left)).0 ≡ (post_once app_env net attempt).0)
          ⊎ ((send_from app_env net attempt (suc left)).0
              ≡ (post_once app_env net attempt).0 ++ (send_from app_env net (suc attempt) left).0)
    unfolding send_from
    send_from_dialed attempt left = ground arith

    send_from-length : (attempt left : ℕ) → length (send_from app_env net attempt left).0 ≤ suc left
    unfolding send_from
    send_from-length attempt zero = post_once-length attempt
    send_from-length attempt (suc left) =
        let now = post_once-length attempt in
        let later = send_from-length (suc attempt) left in
        elim (send_from_dialed attempt left) [
          | inl e ↦ rw e (omega arith)
          | inr e ↦ rw e (
              omega (
                arith,
                length-append (post_once app_env net attempt).0
                    (send_from app_env net (suc attempt) left).0,
              ))
        ]

    module _ (outside : app_env ≢ "development") where
      connect_tcp-IsPublic :
          (attempt : ℕ) (ip : String)
          → connect_tcp app_env net attempt ≡ Dial.connect ip
          → IsPublic net ip
      unfolding connect_tcp
      connect_tcp-IsPublic attempt ip h = elim (Option-cases (net.getaddrinfo attempt)) [
        | inl unknown ↦ absurd (ground arith)
        | inr ([], e) ↦ absurd (ground arith)
        | inr (x ∷ xs, e) ↦
            let dev : str_eq app_env "development" ≡ false =
              str_eq_false app_env "development" outside in
            elim (Bool-cases (is_restricted app_env net x)) [
              | inl restricted ↦ absurd (ground arith)
              | inr public ↦
                  let same : x ≡ ip = ground arith in rw (← same) (is_restricted-IsPublic x public)
            ]
      ]

      dial-IsPublic :
          (attempt : ℕ) (d : Dial)
          → connect_tcp app_env net attempt ≡ d
          → All (IsPublic net) (post_once app_env net attempt).0
      unfolding post_once
      dial-IsPublic attempt d e = elim (Bool-cases (net.is_pooled attempt)) [
        | inl pooled ↦ rw (post_once, pooled) tt
        | inr fresh ↦
            elim d
                as (λ d.
                  connect_tcp app_env net attempt ≡ d
                  → All (IsPublic net) (post_once app_env net attempt).0) [
                    | Dial.connect ip ↦
                        λ e. rw (post_once, fresh, e) (connect_tcp-IsPublic attempt ip e, tt)
                    | Dial.ssrf_violation ↦ λ e. rw (post_once, fresh, e) tt
                    | Dial.index_error ↦ λ e. rw (post_once, fresh, e) tt
                  ]
              e
      ]

      post_once-IsPublic : (attempt : ℕ) → All (IsPublic net) (post_once app_env net attempt).0
      post_once-IsPublic attempt = dial-IsPublic attempt (connect_tcp app_env net attempt) refl

      send_from-IsPublic :
          (attempt left : ℕ) → All (IsPublic net) (send_from app_env net attempt left).0
      unfolding send_from
      send_from-IsPublic attempt zero = post_once-IsPublic attempt
      send_from-IsPublic attempt (suc left) =
          let now = post_once-IsPublic attempt in
          let later = send_from-IsPublic (suc attempt) left in
          elim (send_from_dialed attempt left) [
            | inl e ↦ rw e now
            | inr e ↦ rw e (All-append _ _ _ now later)
          ]

module _ (app_env : String) (call : Call) (key : Option Counter) where
  send_closed-dialed :
      (send_closed app_env call key).dialed ≡ (send_from app_env call.network 0 2).0
  unfolding send_closed send_with_retry
  send_closed-dialed = ground arith

  send_interaction_dialed :
      ((send_interaction app_env call key).dialed ≡ [])
      ⊎ ((send_interaction app_env call key).dialed ≡ (send_from app_env call.network 0 2).0)
  unfolding send_interaction
  send_interaction_dialed = ground (arith, send_closed-dialed)

  -- Outside of development, an interaction with the target agent connects only to addresses that are
  -- not private, loopback, link-local or unspecified, whatever the names resolve to at each attempt.
  pub send_interaction-IsPublic :
      app_env ≢ "development"
      → All (IsPublic call.network) (send_interaction app_env call key).dialed
  send_interaction-IsPublic outside = elim send_interaction_dialed [
    | inl e ↦ rw e tt
    | inr e ↦ rw e (send_from-IsPublic app_env call.network outside 0 2)
  ]

  -- An interaction connects at most three times.
  pub send_interaction-length : length (send_interaction app_env call key).dialed ≤ 3
  send_interaction-length = elim send_interaction_dialed [
    | inl e ↦ rw e (omega arith)
    | inr e ↦ rw e (send_from-length app_env call.network 0 2)
  ]
