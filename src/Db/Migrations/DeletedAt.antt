-- ===== src/Db/Migrations/DeletedAt.antt =====
-- src/backend/db/migrations/versions/8ea70df16ad2_fix_deleted_at_type.py: the type of `deleted_at`.
use crucible.Base.{List, [], ◌∷◌}
use crucible.Db.Schema.{
  uuid, timestamptz, Op, create_index, drop_index, add_column, drop_column, alter_type, nullable,
}

abbrev pub upgrade : List Op
upgrade =
    drop_index "ix_agent_configs_deleted_at" "agent_configs"
    ∷ drop_column "agent_configs" "deleted_at"
    ∷ add_column "agent_configs" (nullable "deleted_at" timestamptz)
    ∷ create_index "ix_agent_configs_deleted_at" "agent_configs" ("deleted_at" ∷ [])
    ∷ []

abbrev pub downgrade : List Op
downgrade = alter_type "agent_configs" "deleted_at" uuid ∷ []
