-- ===== src/Db/Run.antt =====
-- src/backend/db/models/evaluation_run.py, the row of an evaluation job, and the schemas of
-- src/backend/schemas/evaluation.py and src/backend/agents that its columns hold.
-- A timestamp is a number of seconds; a JSON column holds the values that the code writes to it.
use crucible.Base.{
  ℕ, String, Bool, true, false, List, Option, none, some, ◌||◌, ◌==◌, Floats, if◌then◌else◌,
}

pub data RunStatus : Type 0 where
  pending running completed failed cancelled : RunStatus

-- `status == other`
abbrev pub is_status : RunStatus → RunStatus → Bool
is_status RunStatus.pending RunStatus.pending = true
is_status RunStatus.running RunStatus.running = true
is_status RunStatus.completed RunStatus.completed = true
is_status RunStatus.failed RunStatus.failed = true
is_status RunStatus.cancelled RunStatus.cancelled = true
is_status _ _ = false

-- `status.in_(["pending", "running"])`
abbrev pub is_active : RunStatus → Bool
is_active s = is_status s RunStatus.pending || is_status s RunStatus.running

-- `status in ["completed", "failed", "cancelled"]`
abbrev pub is_terminal : RunStatus → Bool
is_terminal s =
    is_status s RunStatus.completed
    || is_status s RunStatus.failed
    || is_status s RunStatus.cancelled

-- What `str(e)` is taken of: the exceptions that the modelled code can meet.
pub data Exn : Type 0 where
  validation_error integrity_error attribute_error unbound_local type_error : Exn
  key_error not_implemented retry_error : Exn
  external : String → Exn

-- The texts that the code writes to `error_message`.
pub data ErrorMessage : Type 0 where
  enqueue_failed : Exn → ErrorMessage
  heartbeat_lost : ErrorMessage
  no_heartbeat : ℕ → ErrorMessage
  text_of : Exn → ErrorMessage

pub record RunConfig (F : Type 0) : Type 0 where
  pub scenario_count : ℕ
  pub categories : List String
  pub severity_levels : List String
  pub red_team_enabled : Bool
  pub judge_model : String
  pub eval_budget_usd : F

-- The dictionaries that the analyzer returns, and the `{}` that the graph starts with.
pub data DriftProfile (F : Type 0) : Type 0 where
  empty : DriftProfile F
  baseline_missing : DriftProfile F
  insufficient_overlap : (baseline_run_id : ℕ) → DriftProfile F
  success : (score : F) (band : String) (overlap_count baseline_run_id : ℕ) → DriftProfile F

pub record Suggestion : Type 0 where
  pub failure_pattern : String
  pub suggested_prompt : String
  pub suggested_tools : Option String
  pub status : String

pub record EvaluationRun (F : Type 0) : Type 0 where
  pub id : ℕ
  pub tenant_id : ℕ
  pub agent_config_id : ℕ
  pub created_by : Option ℕ
  pub name : String
  pub status : RunStatus
  pub run_config : RunConfig F
  pub celery_task_id : Option ℕ
  pub started_at : Option ℕ
  pub completed_at : Option ℕ
  pub last_heartbeat_at : Option ℕ
  pub error_message : Option ErrorMessage
  pub total_scenarios : ℕ
  pub passed_scenarios : ℕ
  pub failed_scenarios : ℕ
  pub avg_score : Option F
  pub drift_profile : Option (DriftProfile F)
  pub embedding_model_version : Option String
  pub is_baseline : Bool
  pub evolution_suggestions : Option (List Suggestion)
  pub created_at : ℕ
  pub updated_at : ℕ

module _ ⦃fl : Floats⦄ where
  open fl use {Float, decimal, div}

  -- `EvaluationRun.pass_rate`, the quotient of two integers
  abbrev pub pass_rate : EvaluationRun Float → Option Float
  pass_rate run =
      if run.total_scenarios == 0
      then none
      else some (div (decimal run.passed_scenarios 0) (decimal run.total_scenarios 0))
