-- ===== src/Core/Settings/Assembled.antt =====
-- src/backend/core/config.py: what holds of the settings that are built.
use mathlib.Core.Path.{subst}
use Prim.Native.String.{◌++◌ as str_append, count as str_len}
use text.Mathlib.TextLemmas.{length-append}
use text.Mathlib.Text.{◌==◌ as str_eq}
use crucible.Base.{
  ℕ, ◌≤◌, String, str_eq_sound, ◌≡◌, refl, ap, false, some, Bool-cases, inl, inr, arith,
}
use crucible.Core.Settings.{
  Settings, or_else, db_url_of, redis_url_of, assemble_db_url, assemble_redis_url,
  assemble_celery_urls, has_default_secret, validate_jwt_secret, settings,
}

append_set : (a b : String) → 1 ≤ str_len a → str_eq (str_append a b) "" ≡ false
append_set a b h = elim (Bool-cases (str_eq (str_append a b) "")) [
  | inl empty ↦
      absurd
        (ground (arith, h, length-append a b, ap str_len (str_eq_sound (str_append a b) "" empty)))
  | inr full ↦ full
]

or_else_set :
    (given assembled : String)
    → str_eq assembled "" ≡ false
    → str_eq (or_else given assembled) "" ≡ false
or_else_set given assembled h = elim (Bool-cases (str_eq given "")) [
  | inl empty ↦ rw empty h
  | inr full ↦ rw full full
]

-- every URL is set
pub record IsAssembled (s : Settings) : Type 0 where
  pub database_url : str_eq s.database_url "" ≡ false
  pub redis_url : str_eq s.redis_url "" ≡ false
  pub celery_broker_url : str_eq s.celery_broker_url "" ≡ false
  pub celery_result_backend : str_eq s.celery_result_backend "" ≡ false
  pub redis_pubsub_url : str_eq s.redis_pubsub_url "" ≡ false

module _ (show : ℕ → String) where
  db_url_of_set : (s : Settings) → str_eq (db_url_of show s) "" ≡ false
  db_url_of_set s = append_set "postgresql+asyncpg://" _ (omega arith)

  redis_url_of_set :
      (database : String) (s : Settings) → str_eq (redis_url_of show database s) "" ≡ false
  redis_url_of_set database s = append_set "redis://" _ (omega arith)

  assembled : Settings → Settings
  assembled s = assemble_celery_urls show (assemble_redis_url show (assemble_db_url show s))

  assembled-IsAssembled : (s : Settings) → IsAssembled (assembled s)
  unfolding assembled
  assembled-IsAssembled s = record {
    database_url = or_else_set s.database_url _ (db_url_of_set s);
    redis_url = or_else_set s.redis_url _ (redis_url_of_set "/0" s);
    celery_broker_url = or_else_set s.celery_broker_url _ (redis_url_of_set "/0" s);
    celery_result_backend = or_else_set s.celery_result_backend _ (redis_url_of_set "/0" s);
    redis_pubsub_url = or_else_set s.redis_pubsub_url _ (redis_url_of_set "/1" s);
  }

  -- Settings whose URLs are all set are as they were.
  assembled_id : (s : Settings) → IsAssembled s → assembled s ≡ s
  unfolding assembled
  assembled_id s h =
      rw
        (
          h.database_url, h.redis_url, h.celery_broker_url, h.celery_result_backend,
          h.redis_pubsub_url,
        )
        refl

  validated :
      (a t : Settings) → validate_jwt_secret a ≡ some t → (has_default_secret a ≡ false) × (a ≡ t)
  validated a t h = elim (Bool-cases (has_default_secret a)) [
    | inl secret ↦ absurd (ground (arith, h, secret))
    | inr own ↦ (own, ground (arith, h, own))
  ]

  -- Settings that are built have every URL set, are built again to themselves, and outside of
  -- development do not have the default secret.
  pub settings-IsAssembled :
      (s t : Settings)
      → settings show s ≡ some t
      → IsAssembled t × (settings show t ≡ some t) × (has_default_secret t ≡ false)
  unfolding settings assembled
  settings-IsAssembled s t h =
      let (own, same) = validated (assembled s) t h in
      let is_assembled = subst IsAssembled same (assembled-IsAssembled s) in
      let own_secret = subst (λ u. has_default_secret u ≡ false) same own in
      (is_assembled, rw (assembled_id t is_assembled, own_secret) refl, own_secret)
