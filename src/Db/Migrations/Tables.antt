-- ===== src/Db/Migrations/Tables.antt =====
-- src/backend/db/migrations/versions/5b07c1569702_initial_schema.py: the columns and the constraints.
use crucible.Base.{List, [], ◌∷◌, none, some}
use crucible.Db.Schema.{
  string, array_of_string, unbounded_text, uuid, timestamptz, boolean, integer, float, jsonb, enum,
  Column, Constraint, primary_key, unique, foreign_key, cascade, set_null, restrict, nullable,
  required, defaulted,
}

abbrev pub tenants_columns : List Column
tenants_columns =
    required "name" (string 255)
    ∷ required "slug" (string 100)
    ∷ defaulted "id" uuid "gen_random_uuid()"
    ∷ defaulted "created_at" timestamptz "now()"
    ∷ defaulted "updated_at" timestamptz "now()"
    ∷ []

abbrev pub tenants_constraints : List Constraint
tenants_constraints = primary_key ("id" ∷ []) ∷ unique (some "uq_tenants_slug") ("slug" ∷ []) ∷ []

abbrev pub users_columns : List Column
users_columns =
    required "tenant_id" uuid
    ∷ required "email" (string 320)
    ∷ required "hashed_password" (string 255)
    ∷ nullable "full_name" (string 255)
    ∷ defaulted "role" (enum "user_role_enum" ("ADMIN" ∷ "MEMBER" ∷ [])) "MEMBER"
    ∷ defaulted "is_active" boolean "true"
    ∷ defaulted "id" uuid "gen_random_uuid()"
    ∷ defaulted "created_at" timestamptz "now()"
    ∷ defaulted "updated_at" timestamptz "now()"
    ∷ []

abbrev pub users_constraints : List Constraint
users_constraints =
    foreign_key none ("tenant_id" ∷ []) "tenants" cascade
    ∷ primary_key ("id" ∷ [])
    ∷ unique (some "uq_users_email") ("email" ∷ [])
    ∷ []

abbrev pub agent_configs_columns : List Column
agent_configs_columns =
    required "tenant_id" uuid
    ∷ nullable "created_by" uuid
    ∷ required "name" (string 255)
    ∷ nullable "description" unbounded_text
    ∷ required "connector_type" (enum "connector_type_enum" ("REST_API" ∷ "SDK" ∷ "MCP" ∷ []))
    ∷ nullable "endpoint_url" (string 2048)
    ∷ nullable "system_prompt" unbounded_text
    ∷ nullable "tool_definitions" jsonb
    ∷ nullable "auth_config" jsonb
    ∷ nullable "deleted_at" uuid
    ∷ defaulted "id" uuid "gen_random_uuid()"
    ∷ defaulted "created_at" timestamptz "now()"
    ∷ defaulted "updated_at" timestamptz "now()"
    ∷ []

abbrev pub agent_configs_constraints : List Constraint
agent_configs_constraints =
    foreign_key none ("created_by" ∷ []) "users" set_null
    ∷ foreign_key none ("tenant_id" ∷ []) "tenants" cascade
    ∷ primary_key ("id" ∷ [])
    ∷ []

abbrev pub evaluation_runs_columns : List Column
evaluation_runs_columns =
    required "tenant_id" uuid
    ∷ required "agent_config_id" uuid
    ∷ nullable "created_by" uuid
    ∷ required "name" (string 255)
    ∷ defaulted "status"
        (enum "run_status_enum" ("PENDING" ∷ "RUNNING" ∷ "COMPLETED" ∷ "FAILED" ∷ "CANCELLED" ∷ []))
        "PENDING"
    ∷ required "run_config" jsonb
    ∷ nullable "celery_task_id" (string 255)
    ∷ nullable "started_at" timestamptz
    ∷ nullable "completed_at" timestamptz
    ∷ nullable "error_message" unbounded_text
    ∷ defaulted "total_scenarios" integer "0"
    ∷ defaulted "passed_scenarios" integer "0"
    ∷ defaulted "failed_scenarios" integer "0"
    ∷ nullable "avg_score" float
    ∷ defaulted "id" uuid "gen_random_uuid()"
    ∷ defaulted "created_at" timestamptz "now()"
    ∷ defaulted "updated_at" timestamptz "now()"
    ∷ []

abbrev pub evaluation_runs_constraints : List Constraint
evaluation_runs_constraints =
    foreign_key none ("agent_config_id" ∷ []) "agent_configs" restrict
    ∷ foreign_key none ("created_by" ∷ []) "users" set_null
    ∷ foreign_key none ("tenant_id" ∷ []) "tenants" cascade
    ∷ primary_key ("id" ∷ [])
    ∷ []

abbrev pub golden_baselines_columns : List Column
golden_baselines_columns =
    required "tenant_id" uuid
    ∷ required "agent_config_id" uuid
    ∷ required "evaluation_run_id" uuid
    ∷ nullable "approved_by" uuid
    ∷ required "name" (string 255)
    ∷ nullable "description" unbounded_text
    ∷ required "behavioral_embedding_collection" (string 255)
    ∷ required "approved_at" timestamptz
    ∷ defaulted "id" uuid "gen_random_uuid()"
    ∷ defaulted "created_at" timestamptz "now()"
    ∷ defaulted "updated_at" timestamptz "now()"
    ∷ []

abbrev pub golden_baselines_constraints : List Constraint
golden_baselines_constraints =
    foreign_key none ("agent_config_id" ∷ []) "agent_configs" restrict
    ∷ foreign_key none ("approved_by" ∷ []) "users" set_null
    ∷ foreign_key none ("evaluation_run_id" ∷ []) "evaluation_runs" restrict
    ∷ foreign_key none ("tenant_id" ∷ []) "tenants" cascade
    ∷ primary_key ("id" ∷ [])
    ∷ unique (some "uq_golden_baselines_tenant_agent") ("tenant_id" ∷ "agent_config_id" ∷ [])
    ∷ []

abbrev pub scenarios_columns : List Column
scenarios_columns =
    required "evaluation_run_id" uuid
    ∷ required "title" (string 500)
    ∷ required "description" unbounded_text
    ∷ required "category" (string 100)
    ∷ required "severity"
        (enum "scenario_severity_enum" ("LOW" ∷ "MEDIUM" ∷ "HIGH" ∷ "CRITICAL" ∷ []))
    ∷ required "input_payload" jsonb
    ∷ required "expected_behavior" unbounded_text
    ∷ defaulted "tags" (array_of_string 100) "{}"
    ∷ defaulted "id" uuid "gen_random_uuid()"
    ∷ defaulted "created_at" timestamptz "now()"
    ∷ defaulted "updated_at" timestamptz "now()"
    ∷ []

abbrev pub scenarios_constraints : List Constraint
scenarios_constraints =
    foreign_key none ("evaluation_run_id" ∷ []) "evaluation_runs" cascade
    ∷ primary_key ("id" ∷ [])
    ∷ []

abbrev pub trace_metadata_columns : List Column
trace_metadata_columns =
    required "scenario_id" uuid
    ∷ required "evaluation_run_id" uuid
    ∷ nullable "s3_uri" (string 2048)
    ∷ nullable "token_count" integer
    ∷ nullable "duration_ms" integer
    ∷ nullable "turn_count" integer
    ∷ nullable "tool_call_count" integer
    ∷ defaulted "status"
        (enum "trace_status_enum" ("PENDING" ∷ "COMPLETED" ∷ "FAILED" ∷ "TIMEOUT" ∷ [])) "PENDING"
    ∷ nullable "error_message" unbounded_text
    ∷ nullable "completed_at" timestamptz
    ∷ defaulted "id" uuid "gen_random_uuid()"
    ∷ defaulted "created_at" timestamptz "now()"
    ∷ defaulted "updated_at" timestamptz "now()"
    ∷ []

abbrev pub trace_metadata_constraints : List Constraint
trace_metadata_constraints =
    foreign_key none ("evaluation_run_id" ∷ []) "evaluation_runs" cascade
    ∷ foreign_key none ("scenario_id" ∷ []) "scenarios" cascade
    ∷ primary_key ("id" ∷ [])
    ∷ []

abbrev pub judgments_columns : List Column
judgments_columns =
    required "trace_id" uuid
    ∷ required "scenario_id" uuid
    ∷ required "evaluation_run_id" uuid
    ∷ required "overall_score" float
    ∷ nullable "safety_score" float
    ∷ nullable "correctness_score" float
    ∷ nullable "instruction_following_score" float
    ∷ required "passed" boolean
    ∷ nullable "reasoning" unbounded_text
    ∷ required "raw_output" jsonb
    ∷ required "judge_model" (string 100)
    ∷ defaulted "id" uuid "gen_random_uuid()"
    ∷ defaulted "created_at" timestamptz "now()"
    ∷ defaulted "updated_at" timestamptz "now()"
    ∷ []

abbrev pub judgments_constraints : List Constraint
judgments_constraints =
    foreign_key none ("evaluation_run_id" ∷ []) "evaluation_runs" cascade
    ∷ foreign_key none ("scenario_id" ∷ []) "scenarios" cascade
    ∷ foreign_key none ("trace_id" ∷ []) "trace_metadata" cascade
    ∷ primary_key ("id" ∷ [])
    ∷ unique none ("trace_id" ∷ [])
    ∷ []
