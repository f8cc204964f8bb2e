-- ===== src/Db/Declared/Runs.antt =====
-- src/backend/db/models: the tables of runs and of what belongs to a run.
use crucible.Base.{[], ◌∷◌, ◌++◌, none}
use crucible.Db.Schema.{
  string, array_of_string, unbounded_text, uuid, timestamptz, boolean, integer, float, jsonb, enum,
  required, nullable, defaulted, primary_key, unique, foreign_key, cascade, set_null, restrict,
  Table,
}
use crucible.Db.Declared.Mixins.{mixed_in}

abbrev pub evaluation_runs : Table
evaluation_runs = record {
  name = "evaluation_runs";
  columns =
      (required "tenant_id" uuid
        ∷ required "agent_config_id" uuid
        ∷ nullable "created_by" uuid
        ∷ required "name" (string 255)
        ∷ defaulted "status"
            (enum "run_status_enum"
              ("PENDING" ∷ "RUNNING" ∷ "COMPLETED" ∷ "FAILED" ∷ "CANCELLED" ∷ []))
            "pending"
        ∷ required "run_config" jsonb
        ∷ nullable "celery_task_id" (string 255)
        ∷ nullable "started_at" timestamptz
        ∷ nullable "completed_at" timestamptz
        ∷ nullable "last_heartbeat_at" timestamptz
        ∷ nullable "error_message" unbounded_text
        ∷ defaulted "total_scenarios" integer "0"
        ∷ defaulted "passed_scenarios" integer "0"
        ∷ defaulted "failed_scenarios" integer "0"
        ∷ nullable "avg_score" float
        ∷ nullable "drift_profile" jsonb
        ∷ nullable "embedding_model_version" (string 100)
        ∷ defaulted "is_baseline" boolean "false"
        ∷ nullable "evolution_suggestions" jsonb
        ∷ [])
      ++ mixed_in;
  constraints =
      foreign_key none ("tenant_id" ∷ []) "tenants" cascade
      ∷ foreign_key none ("agent_config_id" ∷ []) "agent_configs" restrict
      ∷ foreign_key none ("created_by" ∷ []) "users" set_null
      ∷ primary_key ("id" ∷ [])
      ∷ [];
  indexes =
      record { name = "ix_evaluation_runs_tenant_id"; columns = ("tenant_id" ∷ []) }
      ∷ record { name = "ix_evaluation_runs_agent_config_id"; columns = ("agent_config_id" ∷ []) }
      ∷ record { name = "ix_evaluation_runs_status"; columns = ("status" ∷ []) }
      ∷ record { name = "ix_evaluation_runs_created_by"; columns = ("created_by" ∷ []) }
      ∷ [];
}

abbrev pub golden_baselines : Table
golden_baselines = record {
  name = "golden_baselines";
  columns =
      (required "tenant_id" uuid
        ∷ required "agent_config_id" uuid
        ∷ required "evaluation_run_id" uuid
        ∷ nullable "approved_by" uuid
        ∷ required "name" (string 255)
        ∷ nullable "description" unbounded_text
        ∷ required "behavioral_embedding_collection" (string 255)
        ∷ required "approved_at" timestamptz
        ∷ defaulted "is_active" boolean "true"
        ∷ [])
      ++ mixed_in;
  constraints =
      foreign_key none ("tenant_id" ∷ []) "tenants" cascade
      ∷ foreign_key none ("agent_config_id" ∷ []) "agent_configs" restrict
      ∷ foreign_key none ("evaluation_run_id" ∷ []) "evaluation_runs" restrict
      ∷ foreign_key none ("approved_by" ∷ []) "users" set_null
      ∷ primary_key ("id" ∷ [])
      ∷ [];
  indexes =
      record { name = "ix_golden_baselines_tenant_id"; columns = ("tenant_id" ∷ []) }
      ∷ record { name = "ix_golden_baselines_agent_config_id"; columns = ("agent_config_id" ∷ []) }
      ∷ record {
        name = "ix_golden_baselines_evaluation_run_id";
        columns = ("evaluation_run_id" ∷ []);
      }
      ∷ [];
}

abbrev pub scenarios : Table
scenarios = record {
  name = "scenarios";
  columns =
      (required "evaluation_run_id" uuid
        ∷ required "title" (string 500)
        ∷ required "description" unbounded_text
        ∷ required "category" (string 100)
        ∷ required "severity"
            (enum "scenario_severity_enum" ("LOW" ∷ "MEDIUM" ∷ "HIGH" ∷ "CRITICAL" ∷ []))
        ∷ required "input_payload" jsonb
        ∷ required "expected_behavior" unbounded_text
        ∷ defaulted "tags" (array_of_string 100) "{}"
        ∷ [])
      ++ mixed_in;
  constraints =
      foreign_key none ("evaluation_run_id" ∷ []) "evaluation_runs" cascade
      ∷ primary_key ("id" ∷ [])
      ∷ [];
  indexes =
      record { name = "ix_scenarios_evaluation_run_id"; columns = ("evaluation_run_id" ∷ []) }
      ∷ record { name = "ix_scenarios_category"; columns = ("category" ∷ []) }
      ∷ record { name = "ix_scenarios_severity"; columns = ("severity" ∷ []) }
      ∷ record { name = "ix_scenarios_tags"; columns = ("tags" ∷ []) }
      ∷ [];
}

abbrev pub trace_metadata : Table
trace_metadata = record {
  name = "trace_metadata";
  columns =
      (required "scenario_id" uuid
        ∷ required "evaluation_run_id" uuid
        ∷ nullable "storage_key" (string 2048)
        ∷ nullable "token_count" integer
        ∷ nullable "duration_ms" integer
        ∷ nullable "turn_count" integer
        ∷ nullable "tool_call_count" integer
        ∷ defaulted "status"
            (enum "trace_status_enum" ("PENDING" ∷ "COMPLETED" ∷ "FAILED" ∷ "TIMEOUT" ∷ []))
            "pending"
        ∷ nullable "error_message" unbounded_text
        ∷ nullable "completed_at" timestamptz
        ∷ [])
      ++ mixed_in;
  constraints =
      foreign_key none ("scenario_id" ∷ []) "scenarios" cascade
      ∷ foreign_key none ("evaluation_run_id" ∷ []) "evaluation_runs" cascade
      ∷ primary_key ("id" ∷ [])
      ∷ [];
  indexes =
      record { name = "ix_trace_metadata_scenario_id"; columns = ("scenario_id" ∷ []) }
      ∷ record {
        name = "ix_trace_metadata_evaluation_run_id";
        columns = ("evaluation_run_id" ∷ []);
      }
      ∷ record { name = "ix_trace_metadata_status"; columns = ("status" ∷ []) }
      ∷ [];
}

abbrev pub judgments : Table
judgments = record {
  name = "judgments";
  columns =
      (required "trace_id" uuid
        ∷ required "scenario_id" uuid
        ∷ required "evaluation_run_id" uuid
        ∷ required "overall_score" float
        ∷ nullable "safety_score" float
        ∷ nullable "correctness_score" float
        ∷ nullable "instruction_following_score" float
        ∷ required "passed" boolean
        ∷ nullable "reasoning" unbounded_text
        ∷ required "raw_output" jsonb
        ∷ required "judge_model" (string 100)
        ∷ [])
      ++ mixed_in;
  constraints =
      foreign_key none ("trace_id" ∷ []) "trace_metadata" cascade
      ∷ unique none ("trace_id" ∷ [])
      ∷ foreign_key none ("scenario_id" ∷ []) "scenarios" cascade
      ∷ foreign_key none ("evaluation_run_id" ∷ []) "evaluation_runs" cascade
      ∷ primary_key ("id" ∷ [])
      ∷ [];
  indexes =
      record { name = "ix_judgments_trace_id"; columns = ("trace_id" ∷ []) }
      ∷ record { name = "ix_judgments_scenario_id"; columns = ("scenario_id" ∷ []) }
      ∷ record { name = "ix_judgments_evaluation_run_id"; columns = ("evaluation_run_id" ∷ []) }
      ∷ record { name = "ix_judgments_passed"; columns = ("passed" ∷ []) }
      ∷ [];
}
