-- ===== src/Tests/NodeRuns.antt =====
-- The nodes of the graph with concrete targets, stores and models.
use crucible.Base.{ℕ, ◌≡◌, refl, false, true, String, List, [], ◌∷◌, none, some}
use crucible.Db.Run.{DriftProfile, type_error}
use crucible.Worker.Result.{ok, raised}
use crucible.Agents.State.{
  EvaluationState, GraphScenario, TraceMeta, JudgmentData, no_update, reduce,
}
use crucible.Agents.Simulator.{Reply, other_value, Simulation}
use crucible.Agents.Judge.{Judge, judge_trace_node}
use crucible.Agents.Judge.Once.{judge_trace_node_once}
use crucible.Agents.Analyzer.{Analysis}
use crucible.Agents.Pipeline.{Services, evaluate}
use crucible.Agents.Pipeline.Nested.{IsNested}
use crucible.Agents.Pipeline.Evaluated.{evaluate-IsNested}
use crucible.Tests.Data.{nat_floats, world}

abbrev scenario : GraphScenario
scenario = record {
  id = 1;
  title = some "title";
  description = some "description";
  expected_outcome = none;
  expected_behavior = none;
  category = none;
  input_payload = none;
}

abbrev trace : TraceMeta
trace = record {
  trace_id = 3;
  scenario_id = 1;
  storage_key = some "key";
  turn_count = none;
  error_message = none;
}

abbrev failed_judgment : JudgmentData ℕ
failed_judgment = record {
  scenario_id = 9;
  trace_key = none;
  score = 0;
  overall_score = none;
  reasoning = "";
  passed = false;
}

abbrev state : EvaluationState ℕ
state = record {
  run_id = 7;
  tenant_id = 1;
  agent_id = 5;
  config = record {
    max_budget_usd = some 500;
    scenario_count = none;
    target_endpoint_url = some "https://agent.example";
    connector_type = some "rest_api";
    target_description = none;
    target_system_prompt = none;
  };
  total_cost_usd = 0;
  turn_count = 0;
  scenarios = scenario ∷ [];
  traces = trace ∷ [];
  judgments = failed_judgment ∷ [];
  evolution_suggestions = [];
  drift_profile = some DriftProfile.empty;
  errors = [];
}

-- the target answers with a value that is no dictionary, so every turn is used
abbrev silent : ℕ → List (String × String) → Reply
silent turn payload = other_value

abbrev simulation : Simulation
simulation = record {
  lower = λ s. s;
  str = λ e. "error";
  uuid = λ n. n;
  send = λ n. silent;
  upload_trace = λ n k i s log. ok "key";
  connect = λ url. none;
}

abbrev judge : Judge ℕ
judge = record {
  str = λ e. "error";
  download_trace = λ key attempt. ok "{}";
  ask = λ t d s. ok (record { score = 90; reasoning = "good"; passed = true }, 2);
}

judge_trace_node_once_example :
    judge_trace_node judge (reduce state (judge_trace_node judge state)) ≡ no_update
judge_trace_node_once_example = judge_trace_node_once judge state (refl, tt)

abbrev analysis : Analysis ℕ
analysis = record {
  download_trace = λ key. ok "{}";
  generate = λ prompt. ok ("summary", 1);
  embed = λ summary. ok (1 ∷ [], 1);
  qdrant = λ id. none;
  scroll = none;
  numerics = record { similarity = λ a b. 1; set_order = λ ks. ks; round_4 = λ x. x };
}

abbrev services : Services ℕ
services = record {
  uuid = λ n. n;
  generate_scenarios = λ n d t. ok (
    record { title = "title"; description = "description"; expected_outcome = "outcome" } ∷ [],
    1,
  );
  simulation = simulation;
  judge = judge;
  analysis = analysis;
  suggest = λ p js. raised type_error;
  world = world;
  points = [];
}

abbrev fresh : EvaluationState ℕ
fresh = record state { scenarios = []; traces = []; judgments = [] }

evaluate-IsNested_example : IsNested (evaluate services 25 fresh).final
evaluate-IsNested_example = evaluate-IsNested services 25 fresh refl refl
