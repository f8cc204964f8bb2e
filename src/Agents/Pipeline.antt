-- ===== src/Agents/Pipeline.antt =====
-- src/backend/agents/orchestrator.py: `build_evaluation_graph` with the five nodes that it adds. The
-- tables and the vector database are as the analyzer finds them.
pub mod Nested
pub mod Evaluated
use crucible.Base.{ℕ, String, List, Floats}
use crucible.Db.Models.{World}
use crucible.Worker.Result.{Result}
use crucible.Connectors.VectorDb.{Point}
use crucible.Agents.State.{EvaluationState, JudgmentData}
use crucible.Agents.Orchestrator.{
  Node, generate, simulate, judge, analyze, evolution, NodeResult, returned, GraphRun, run_graph,
}
use crucible.Agents.Generator.{ScenarioGenerationItem, generate_scenarios_node}
use crucible.Agents.Simulator.{Simulation, simulate_environment_node}
use crucible.Agents.Judge.{Judge, judge_trace_node}
use crucible.Agents.Evolution.{EvolutionSuggestion, evolution_node}
use crucible.Agents.Analyzer.{Analysis, analyze_drift_node}

-- what the nodes call
pub record Services (F : Type 0) : Type 0 where
  pub uuid : ℕ → ℕ
  pub generate_scenarios :
      (count : ℕ) (target_desc target_prompt : String) → Result (List ScenarioGenerationItem × F)
  pub simulation : Simulation
  pub judge : Judge F
  pub analysis : Analysis F
  pub suggest : (current_prompt : String) → List (JudgmentData F) → Result (EvolutionSuggestion × F)
  pub world : World F
  pub points : List (Point F)

module _ ⦃fl : Floats⦄ (services : Services fl.Float) where
  open fl use {Float}

  -- `workflow.add_node`
  unfoldable pub node : Node → EvaluationState Float → NodeResult Float
  unfolding generate_scenarios_node simulate_environment_node judge_trace_node analyze_drift_node
      evolution_node
  node generate s = returned (generate_scenarios_node services.uuid services.generate_scenarios s)
  node simulate s = returned (simulate_environment_node services.simulation s)
  node judge s = returned (judge_trace_node services.judge s)
  node analyze s =
      returned (analyze_drift_node services.analysis s services.world services.points).0
  node evolution s = returned (evolution_node services.suggest s)

  unfoldable pub evaluate : (limit : ℕ) → EvaluationState Float → GraphRun Float
  unfolding run_graph node
  evaluate = run_graph node
