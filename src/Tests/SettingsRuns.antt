-- ===== src/Tests/SettingsRuns.antt =====
-- The settings of a production deployment that names its Redis by host.
use crucible.Base.{ℕ, ◌≡◌, refl, false, some, String}
use crucible.Core.Settings.{Settings, settings, has_default_secret}
use crucible.Core.Settings.Assembled.{IsAssembled, settings-IsAssembled}

abbrev show : ℕ → String
show n = "6379"

abbrev given : Settings
given = record {
  app_env = "production";
  postgres_user = "crucible";
  postgres_password = "crucible_secret";
  postgres_host = "db";
  postgres_port = 5432;
  postgres_db = "crucible";
  database_url = "postgresql+asyncpg://crucible@db/crucible";
  redis_host = "redis";
  redis_port = 6379;
  redis_url = "";
  celery_broker_url = "";
  celery_result_backend = "redis://results:6379/0";
  redis_pubsub_url = "";
  jwt_secret_key = "own secret";
}

abbrev built : Settings
built = record given {
  redis_url = "redis://redis:6379/0";
  celery_broker_url = "redis://redis:6379/0";
  redis_pubsub_url = "redis://redis:6379/1";
}

settings-IsAssembled_example :
    IsAssembled built × (settings show built ≡ some built) × (has_default_secret built ≡ false)
unfolding settings
settings-IsAssembled_example = settings-IsAssembled show given built refl
