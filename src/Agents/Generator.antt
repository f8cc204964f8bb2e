-- ===== src/Agents/Generator.antt =====
-- src/backend/agents/generator.py. `generate` is the call of the language model with the formatted
-- prompt; `uuid n` the n-th key that `uuid4` gives.
use crucible.Base.{ℕ, suc, String, List, [], ◌∷◌, none, some, Floats}
use crucible.Worker.Result.{Result, ok, raised}
use crucible.Agents.State.{
  GraphScenario, EvaluationState, Update, no_update, get_or, generation_failed,
}

-- src/backend/schemas/evaluation.py
pub record ScenarioGenerationItem : Type 0 where
  pub title : String
  pub description : String
  pub expected_outcome : String

-- the dictionaries that the loop appends
unfoldable pub generated : (uuid : ℕ → ℕ) → ℕ → List ScenarioGenerationItem → List GraphScenario
generated uuid n [] = []
generated uuid n (s ∷ ss) =
    record {
      id = uuid n;
      title = some s.title;
      description = some s.description;
      expected_outcome = some s.expected_outcome;
      expected_behavior = none;
      category = none;
      input_payload = none;
    }
    ∷ generated uuid (suc n) ss

module _ ⦃fl : Floats⦄ (uuid : ℕ → ℕ)
    (generate : (count : ℕ)
      → (target_desc target_prompt : String)
      → Result (List ScenarioGenerationItem × fl.Float)) where
  open fl use {Float}

  unfoldable pub generate_scenarios_node : EvaluationState Float → Update Float
  unfolding generated
  generate_scenarios_node state =
      let config = state.config in
      elim (generate (get_or config.scenario_count 3)
        (get_or config.target_description "An AI agent")
        (get_or config.target_system_prompt "You are a helpful assistant")) [
          | raised e ↦ record no_update { errors = some (generation_failed e ∷ []) }
          | ok (parsed, cost) ↦ record no_update {
            scenarios = some (generated uuid 0 parsed);
            total_cost_usd = some cost;
            turn_count = some 1;
          }
        ]
