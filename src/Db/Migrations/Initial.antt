-- ===== src/Db/Migrations/Initial.antt =====
-- src/backend/db/migrations/versions/5b07c1569702_initial_schema.py: the first tables.
use crucible.Base.{List, [], ◌∷◌}
use crucible.Db.Schema.{Op, create_table, drop_table, create_index, drop_index}
use crucible.Db.Migrations.Tables.{
  tenants_columns, tenants_constraints, users_columns, users_constraints, agent_configs_columns,
  agent_configs_constraints, evaluation_runs_columns, evaluation_runs_constraints,
  golden_baselines_columns, golden_baselines_constraints, scenarios_columns, scenarios_constraints,
  trace_metadata_columns, trace_metadata_constraints, judgments_columns, judgments_constraints,
}

abbrev pub upgrade : List Op
upgrade =
    create_table "tenants" tenants_columns tenants_constraints
    ∷ create_index "ix_tenants_slug" "tenants" ("slug" ∷ [])
    ∷ create_table "users" users_columns users_constraints
    ∷ create_index "ix_users_email" "users" ("email" ∷ [])
    ∷ create_index "ix_users_tenant_id" "users" ("tenant_id" ∷ [])
    ∷ create_table "agent_configs" agent_configs_columns agent_configs_constraints
    ∷ create_index "ix_agent_configs_created_by" "agent_configs" ("created_by" ∷ [])
    ∷ create_index "ix_agent_configs_deleted_at" "agent_configs" ("deleted_at" ∷ [])
    ∷ create_index "ix_agent_configs_tenant_id" "agent_configs" ("tenant_id" ∷ [])
    ∷ create_table "evaluation_runs" evaluation_runs_columns evaluation_runs_constraints
    ∷ create_index "ix_evaluation_runs_agent_config_id" "evaluation_runs" ("agent_config_id" ∷ [])
    ∷ create_index "ix_evaluation_runs_created_by" "evaluation_runs" ("created_by" ∷ [])
    ∷ create_index "ix_evaluation_runs_status" "evaluation_runs" ("status" ∷ [])
    ∷ create_index "ix_evaluation_runs_tenant_id" "evaluation_runs" ("tenant_id" ∷ [])
    ∷ create_table "golden_baselines" golden_baselines_columns golden_baselines_constraints
    ∷ create_index "ix_golden_baselines_agent_config_id" "golden_baselines" ("agent_config_id" ∷ [])
    ∷ create_index "ix_golden_baselines_evaluation_run_id" "golden_baselines"
        ("evaluation_run_id" ∷ [])
    ∷ create_index "ix_golden_baselines_tenant_id" "golden_baselines" ("tenant_id" ∷ [])
    ∷ create_table "scenarios" scenarios_columns scenarios_constraints
    ∷ create_index "ix_scenarios_category" "scenarios" ("category" ∷ [])
    ∷ create_index "ix_scenarios_evaluation_run_id" "scenarios" ("evaluation_run_id" ∷ [])
    ∷ create_index "ix_scenarios_severity" "scenarios" ("severity" ∷ [])
    ∷ create_table "trace_metadata" trace_metadata_columns trace_metadata_constraints
    ∷ create_index "ix_trace_metadata_evaluation_run_id" "trace_metadata" ("evaluation_run_id" ∷ [])
    ∷ create_index "ix_trace_metadata_scenario_id" "trace_metadata" ("scenario_id" ∷ [])
    ∷ create_index "ix_trace_metadata_status" "trace_metadata" ("status" ∷ [])
    ∷ create_table "judgments" judgments_columns judgments_constraints
    ∷ create_index "ix_judgments_evaluation_run_id" "judgments" ("evaluation_run_id" ∷ [])
    ∷ create_index "ix_judgments_passed" "judgments" ("passed" ∷ [])
    ∷ create_index "ix_judgments_scenario_id" "judgments" ("scenario_id" ∷ [])
    ∷ create_index "ix_judgments_trace_id" "judgments" ("trace_id" ∷ [])
    ∷ []

abbrev pub downgrade : List Op
downgrade =
    drop_index "ix_judgments_trace_id" "judgments"
    ∷ drop_index "ix_judgments_scenario_id" "judgments"
    ∷ drop_index "ix_judgments_passed" "judgments"
    ∷ drop_index "ix_judgments_evaluation_run_id" "judgments"
    ∷ drop_table "judgments"
    ∷ drop_index "ix_trace_metadata_status" "trace_metadata"
    ∷ drop_index "ix_trace_metadata_scenario_id" "trace_metadata"
    ∷ drop_index "ix_trace_metadata_evaluation_run_id" "trace_metadata"
    ∷ drop_table "trace_metadata"
    ∷ drop_index "ix_scenarios_severity" "scenarios"
    ∷ drop_index "ix_scenarios_evaluation_run_id" "scenarios"
    ∷ drop_index "ix_scenarios_category" "scenarios"
    ∷ drop_table "scenarios"
    ∷ drop_index "ix_golden_baselines_tenant_id" "golden_baselines"
    ∷ drop_index "ix_golden_baselines_evaluation_run_id" "golden_baselines"
    ∷ drop_index "ix_golden_baselines_agent_config_id" "golden_baselines"
    ∷ drop_table "golden_baselines"
    ∷ drop_index "ix_evaluation_runs_tenant_id" "evaluation_runs"
    ∷ drop_index "ix_evaluation_runs_status" "evaluation_runs"
    ∷ drop_index "ix_evaluation_runs_created_by" "evaluation_runs"
    ∷ drop_index "ix_evaluation_runs_agent_config_id" "evaluation_runs"
    ∷ drop_table "evaluation_runs"
    ∷ drop_index "ix_agent_configs_tenant_id" "agent_configs"
    ∷ drop_index "ix_agent_configs_deleted_at" "agent_configs"
    ∷ drop_index "ix_agent_configs_created_by" "agent_configs"
    ∷ drop_table "agent_configs"
    ∷ drop_index "ix_users_tenant_id" "users"
    ∷ drop_index "ix_users_email" "users"
    ∷ drop_table "users"
    ∷ drop_index "ix_tenants_slug" "tenants"
    ∷ drop_table "tenants"
    ∷ []
