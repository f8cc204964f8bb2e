-- ===== src/Db/Migrations/Heartbeat.antt =====
-- src/backend/db/migrations/versions/db25dbfda68e_add_last_heartbeat_at_to_evaluationrun.py: the column of the heartbeat.
use crucible.Base.{List, [], ◌∷◌, none, some}
use crucible.Db.Schema.{
  timestamptz, foreign_key, cascade, no_action, Op, add_column, drop_column, create_constraint,
  drop_constraint, nullable,
}

abbrev pub upgrade : List Op
upgrade =
    drop_constraint (some "agent_configs_tenant_id_fkey") "agent_configs"
    ∷ create_constraint "agent_configs" (foreign_key none ("tenant_id" ∷ []) "tenants" no_action)
    ∷ add_column "evaluation_runs" (nullable "last_heartbeat_at" timestamptz)
    ∷ []

abbrev pub downgrade : List Op
downgrade =
    drop_column "evaluation_runs" "last_heartbeat_at"
    ∷ drop_constraint none "agent_configs"
    ∷ create_constraint "agent_configs"
        (foreign_key (some "agent_configs_tenant_id_fkey") ("tenant_id" ∷ []) "tenants" cascade)
    ∷ []
