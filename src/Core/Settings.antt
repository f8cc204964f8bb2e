-- ===== src/Core/Settings.antt =====
-- src/backend/core/config.py: the validators of `Settings` that run behind the fields, in the order
-- of the class. `show` prints a port.
pub mod Assembled
use Prim.Native.String.{◌++◌ as str_append}
use text.Mathlib.Text.{◌==◌ as str_eq}
use crucible.Base.{
  ℕ, String, Bool, true, false, not, ◌&&◌, List, [], ◌∷◌, Option, none, some, if◌then◌else◌,
}

-- the fields that the validators read or set
pub record Settings : Type 0 where
  pub app_env : String
  pub postgres_user : String
  pub postgres_password : String
  pub postgres_host : String
  pub postgres_port : ℕ
  pub postgres_db : String
  pub database_url : String
  pub redis_host : String
  pub redis_port : ℕ
  pub redis_url : String
  pub celery_broker_url : String
  pub celery_result_backend : String
  pub redis_pubsub_url : String
  pub jwt_secret_key : String

-- an f-string
abbrev pub join : List String → String
join [] = ""
join (s ∷ ss) = str_append s (join ss)

-- `if not self.X: self.X = …`
abbrev pub or_else : (given assembled : String) → String
or_else given assembled = if str_eq given "" then assembled else given

abbrev pub has_default_secret : Settings → Bool
has_default_secret s =
    not (str_eq s.app_env "development")
    && str_eq s.jwt_secret_key "super_secret_jwt_key_change_in_production"

-- `none`: the value error
abbrev pub validate_jwt_secret : Settings → Option Settings
validate_jwt_secret s = if has_default_secret s then none else some s

module _ (show : ℕ → String) where
  abbrev pub db_url_of : Settings → String
  db_url_of s = join (
      "postgresql+asyncpg://"
      ∷ s.postgres_user
      ∷ ":"
      ∷ s.postgres_password
      ∷ "@"
      ∷ s.postgres_host
      ∷ ":"
      ∷ show s.postgres_port
      ∷ "/"
      ∷ s.postgres_db
      ∷ [])

  abbrev pub redis_url_of : (database : String) → Settings → String
  redis_url_of database s =
      join ("redis://" ∷ s.redis_host ∷ ":" ∷ show s.redis_port ∷ database ∷ [])

  abbrev pub assemble_db_url : Settings → Settings
  assemble_db_url s = record s { database_url = or_else s.database_url (db_url_of s) }

  abbrev pub assemble_redis_url : Settings → Settings
  assemble_redis_url s = record s { redis_url = or_else s.redis_url (redis_url_of "/0" s) }

  abbrev pub assemble_celery_urls : Settings → Settings
  assemble_celery_urls s = record s {
    celery_broker_url = or_else s.celery_broker_url (redis_url_of "/0" s);
    celery_result_backend = or_else s.celery_result_backend (redis_url_of "/0" s);
    redis_pubsub_url = or_else s.redis_pubsub_url (redis_url_of "/1" s);
  }

  -- `Settings()`, from the fields that the environment gives
  unfoldable pub settings : Settings → Option Settings
  settings s = validate_jwt_secret (assemble_celery_urls (assemble_redis_url (assemble_db_url s)))
