-- ===== src/Tests/Data.antt =====
-- Concrete tables: a float is a number of hundredths.
use crucible.Base.{true, false, ℕ, ◌+◌, ◌-◌, ◌*◌, zero, suc, [], ◌∷◌, none, some, ltb, ◌==◌, Floats}
use crucible.Db.Run.{EvaluationRun, RunStatus, RunConfig}
use crucible.Db.Models.{World, AgentConfig, ConnectorType, User, UserRole, execute_evaluation_run}
use crucible.Api.Evaluation.{EvaluationRunCreate}

-- the literal n / 10 ^ k, rounded down to hundredths
abbrev hundredths : ℕ → ℕ → ℕ
hundredths n zero = n * 100
hundredths n (suc zero) = n * 10
hundredths n (suc (suc k)) = n

instance abbrev pub nat_floats : Floats
nat_floats = record {
  Float = ℕ;
  decimal = hundredths;
  add = λ a b. a + b;
  sub = λ a b. a - b;
  div = λ a b. a;
  lt = ltb;
  eq = ◌==◌;
}

abbrev pub run_config : RunConfig ℕ
run_config = record {
  scenario_count = 10;
  categories = [];
  severity_levels = [];
  red_team_enabled = false;
  judge_model = "gpt-4o";
  eval_budget_usd = 500;
}

abbrev pub agent : AgentConfig
agent = record {
  id = 5;
  tenant_id = 1;
  created_by = none;
  name = "agent";
  description = none;
  connector_type = ConnectorType.rest_api;
  endpoint_url = some "https://agent.example";
  system_prompt = none;
  tool_definitions = none;
  auth_config_encrypted = none;
  deleted_at = none;
  created_at = 0;
  updated_at = 0;
}

abbrev pub user : User
user = record {
  id = 2;
  tenant_id = 1;
  email = "u@example.com";
  hashed_password = "";
  full_name = none;
  role = UserRole.member;
  is_active = true;
}

abbrev pub run_in : EvaluationRunCreate ℕ
run_in = record { agent_config_id = 5; name = "run"; run_config = run_config }

abbrev pub run_of : ℕ → RunStatus → EvaluationRun ℕ
run_of i s = record {
  id = i;
  tenant_id = 1;
  agent_config_id = 5;
  created_by = none;
  name = "run";
  status = s;
  run_config = run_config;
  celery_task_id = none;
  started_at = none;
  completed_at = none;
  last_heartbeat_at = none;
  error_message = none;
  total_scenarios = 0;
  passed_scenarios = 0;
  failed_scenarios = 0;
  avg_score = some 80;
  drift_profile = none;
  embedding_model_version = none;
  is_baseline = false;
  evolution_suggestions = none;
  created_at = 0;
  updated_at = 0;
}

-- run 7 is pending with its task in the broker, run 8 is completed
abbrev pub world : World ℕ
world = record {
  runs = run_of 7 RunStatus.pending ∷ run_of 8 RunStatus.completed ∷ [];
  agent_configs = agent ∷ [];
  users = user ∷ [];
  scenarios = [];
  trace_metadata = [];
  judgments = [];
  broker = execute_evaluation_run 7 ∷ execute_evaluation_run 8 ∷ [];
}
