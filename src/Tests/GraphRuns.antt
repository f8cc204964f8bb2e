-- ===== src/Tests/GraphRuns.antt =====
-- Runs of the evaluation graph with concrete nodes.
use crucible.Base.{ℕ, ◌≡◌, ◌≢◌, [], ◌∷◌, none, some, map, take, length, arith}
use crucible.Db.Run.{DriftProfile}
use crucible.Agents.State.{EvaluationState, no_update}
use crucible.Agents.Orchestrator.{
  Node, generate, simulate, judge, analyze, evolution, NodeResult, returned, run_graph,
  recursion_limit,
}
use crucible.Agents.Orchestrator.Routing.{
  node_of, StaysWithinBudget, run_graph-order, run_graph-StaysWithinBudget, run_graph-terminates,
}
use crucible.Tests.Data.{nat_floats}

abbrev start_state : EvaluationState ℕ
start_state = record {
  run_id = 7;
  tenant_id = 1;
  agent_id = 5;
  config = record {
    max_budget_usd = some 500;
    scenario_count = none;
    target_endpoint_url = none;
    connector_type = none;
    target_description = none;
    target_system_prompt = none;
  };
  total_cost_usd = 0;
  turn_count = 0;
  scenarios = [];
  traces = [];
  judgments = [];
  evolution_suggestions = [];
  drift_profile = some DriftProfile.empty;
  errors = [];
}

-- the generator finds one scenario, the simulator spends more than the budget
abbrev nodes : Node → EvaluationState ℕ → NodeResult ℕ
nodes generate s = returned (record no_update {
  total_cost_usd = some 100;
  scenarios = some (
      record {
        id = 1;
        title = none;
        description = none;
        expected_outcome = none;
        expected_behavior = none;
        category = none;
        input_payload = none;
      }
      ∷ []);
})
nodes simulate s = returned (record no_update {
  total_cost_usd = some 600;
  traces = some (
      record {
        trace_id = 1;
        scenario_id = 1;
        storage_key = none;
        turn_count = none;
        error_message = none;
      }
      ∷ []);
})
nodes _ s = returned no_update

run_graph-order_example :
    let us = (run_graph nodes 25 start_state).updates in
    map node_of us ≡ take (length us) (generate ∷ simulate ∷ judge ∷ analyze ∷ evolution ∷ [])
run_graph-order_example = run_graph-order nodes 25 start_state

run_graph-StaysWithinBudget_example :
    StaysWithinBudget start_state (run_graph nodes 25 start_state).updates
run_graph-StaysWithinBudget_example = run_graph-StaysWithinBudget nodes 25 start_state

run_graph-terminates_example : (run_graph nodes 25 start_state).stop ≢ recursion_limit
run_graph-terminates_example = run_graph-terminates nodes 25 start_state (omega arith)
