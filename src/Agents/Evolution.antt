-- ===== src/Agents/Evolution.antt =====
-- src/backend/agents/evolution.py. `generate` formats the prompt from the current system prompt and
-- the failures it is given, and calls the language model.
pub mod Worst
use crucible.Base.{
  String, Bool, true, false, not, ◌||◌, List, [], ◌∷◌, Option, none, some, filter, take, Floats,
  if◌then◌else◌,
}
use crucible.Db.Run.{Exn, Suggestion}
use crucible.Worker.Result.{Result, ok, raised}
use crucible.Agents.State.{
  JudgmentData, EvaluationState, Update, no_update, get_or, evolution_failed,
}

pub record EvolutionSuggestion : Type 0 where
  pub failure_pattern_synthesis : String
  pub suggested_system_prompt : String
  pub suggested_tool_changes : Option String

module _ ⦃fl : Floats⦄ where
  open fl use {Float, decimal, lt}

  -- `j.get("overall_score", 100)`
  abbrev pub overall_score : JudgmentData Float → Float
  overall_score j = get_or j.overall_score (decimal 100 0)

  -- `j.get("overall_score", 100) < 80 or not j.get("passed", True)`
  abbrev pub is_failure : JudgmentData Float → Bool
  is_failure j = lt (overall_score j) (decimal 80 0) || not j.passed

  -- `sorted` is stable: an item goes before the first later one with a greater key, and an item
  -- with an equal key stays behind it
  unfoldable pub insert_by_score :
      JudgmentData Float → List (JudgmentData Float) → List (JudgmentData Float)
  insert_by_score j [] = j ∷ []
  insert_by_score j (k ∷ ks) =
      let rest = insert_by_score j ks in
      if lt (overall_score k) (overall_score j) then k ∷ rest else j ∷ k ∷ ks

  unfoldable pub sort_by_score : List (JudgmentData Float) → List (JudgmentData Float)
  unfolding insert_by_score
  sort_by_score [] = []
  sort_by_score (j ∷ js) = insert_by_score j (sort_by_score js)

  -- the five worst failures
  unfoldable pub worst_failures : List (JudgmentData Float) → List (JudgmentData Float)
  unfolding sort_by_score
  worst_failures judgments = take 5 (sort_by_score (filter is_failure judgments))

  module _
      (generate : (current_prompt : String)
        → List (JudgmentData Float)
        → Result (EvolutionSuggestion × Float)) where
    abbrev suggest : Result (EvolutionSuggestion × Float) → Update Float
    suggest (raised e) = record no_update { errors = some (evolution_failed e ∷ []) }
    suggest (ok (s, cost)) = record no_update {
      evolution_suggestions = some (
          record {
            failure_pattern = s.failure_pattern_synthesis;
            suggested_prompt = s.suggested_system_prompt;
            suggested_tools = s.suggested_tool_changes;
            status = "pending_review";
          }
          ∷ []);
      total_cost_usd = some cost;
    }

    unfoldable pub evolution_node : EvaluationState Float → Update Float
    unfolding worst_failures
    evolution_node state = elim (worst_failures state.judgments) [
      | [] ↦ record no_update { evolution_suggestions = some [] }
      | j ∷ js ↦ suggest (generate (get_or state.config.target_system_prompt "") (j ∷ js))
    ]
