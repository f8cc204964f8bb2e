-- ===== src/Db/Migrations/Remediations.antt =====
-- src/backend/db/migrations/versions/14f34cc264ce_audit_remediations.py: changes of four tables.
use crucible.Base.{List, [], ◌∷◌, some}
use crucible.Db.Schema.{
  string, boolean, jsonb, unique, Op, create_index, drop_index, add_column, drop_column,
  create_constraint, drop_constraint, nullable, defaulted,
}

abbrev pub upgrade : List Op
upgrade =
    add_column "agent_configs" (nullable "auth_config_encrypted" (string 2048))
    ∷ drop_column "agent_configs" "auth_config"
    ∷ add_column "golden_baselines" (defaulted "is_active" boolean "true")
    ∷ drop_constraint (some "uq_golden_baselines_tenant_agent") "golden_baselines"
    ∷ create_index "ix_scenarios_tags" "scenarios" ("tags" ∷ [])
    ∷ add_column "trace_metadata" (nullable "storage_key" (string 2048))
    ∷ drop_column "trace_metadata" "s3_uri"
    ∷ drop_constraint (some "uq_users_email") "users"
    ∷ create_constraint "users" (unique (some "uq_users_tenant_email") ("tenant_id" ∷ "email" ∷ []))
    ∷ []

abbrev pub downgrade : List Op
downgrade =
    drop_constraint (some "uq_users_tenant_email") "users"
    ∷ create_constraint "users" (unique (some "uq_users_email") ("email" ∷ []))
    ∷ add_column "trace_metadata" (nullable "s3_uri" (string 2048))
    ∷ drop_column "trace_metadata" "storage_key"
    ∷ drop_index "ix_scenarios_tags" "scenarios"
    ∷ create_constraint "golden_baselines"
        (unique (some "uq_golden_baselines_tenant_agent") ("tenant_id" ∷ "agent_config_id" ∷ []))
    ∷ drop_column "golden_baselines" "is_active"
    ∷ add_column "agent_configs" (nullable "auth_config" jsonb)
    ∷ drop_column "agent_configs" "auth_config_encrypted"
    ∷ []
