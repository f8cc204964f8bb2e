-- ===== src/Db/Models.antt =====
-- The other tables that the code reads and writes: src/backend/db/models. Columns that no
-- modelled operation reads or writes (tags and severity of a scenario, the status of a trace, the
-- scores of one dimension, `raw_output`) are left out.
use crucible.Base.{ℕ, String, Bool, List, Option}
use crucible.Db.Run.{EvaluationRun}

-- src/backend/db/models/agent_config.py
pub data ConnectorType : Type 0 where
  rest_api sdk mcp : ConnectorType

pub record AgentConfig : Type 0 where
  pub id : ℕ
  pub tenant_id : ℕ
  pub created_by : Option ℕ
  pub name : String
  pub description : Option String
  pub connector_type : ConnectorType
  pub endpoint_url : Option String
  pub system_prompt : Option String
  pub tool_definitions : Option String
  pub auth_config_encrypted : Option String
  pub deleted_at : Option ℕ
  pub created_at : ℕ
  pub updated_at : ℕ

-- src/backend/db/models/user.py
pub data UserRole : Type 0 where
  admin member : UserRole

pub record User : Type 0 where
  pub id : ℕ
  pub tenant_id : ℕ
  pub email : String
  pub hashed_password : String
  pub full_name : Option String
  pub role : UserRole
  pub is_active : Bool

-- src/backend/db/models/scenario.py
pub record Scenario : Type 0 where
  pub id : ℕ
  pub evaluation_run_id : ℕ
  pub title : String
  pub description : String
  pub category : String
  pub expected_behavior : String
  pub input_payload : List (String × String)

-- src/backend/db/models/trace_metadata.py. `scenario_id` is NOT NULL in the table: a row without
-- one is refused when it is flushed.
pub record TraceMetadata : Type 0 where
  pub id : ℕ
  pub evaluation_run_id : ℕ
  pub scenario_id : Option ℕ
  pub storage_key : Option String
  pub turn_count : ℕ
  pub token_count : ℕ
  pub duration_ms : ℕ
  pub tool_call_count : ℕ
  pub error_message : Option String

-- src/backend/db/models/judgment.py. `trace_id` is UNIQUE in the table.
pub record Judgment (F : Type 0) : Type 0 where
  pub evaluation_run_id : ℕ
  pub scenario_id : Option ℕ
  pub trace_id : ℕ
  pub passed : Bool
  pub overall_score : F
  pub reasoning : Option String
  pub judge_model : String

-- What the API has handed to Celery's broker.
pub data Task : Type 0 where
  execute_evaluation_run : (run_id : ℕ) → Task
  delete_s3_traces : (run_id tenant_id : ℕ) → Task

-- The state that the processes share: the tables and the broker's queue.
pub record World (F : Type 0) : Type 0 where
  pub runs : List (EvaluationRun F)
  pub agent_configs : List AgentConfig
  pub users : List User
  pub scenarios : List Scenario
  pub trace_metadata : List TraceMetadata
  pub judgments : List (Judgment F)
  pub broker : List Task
