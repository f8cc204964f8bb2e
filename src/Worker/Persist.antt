-- ===== src/Worker/Persist.antt =====
-- src/backend/worker/tasks.py, `_persist_final_state`: the rows that a finished graph run leaves.
-- `uuid n` is the key that the n-th call of `uuid4` gives. A flush or commit that meets a NOT NULL
-- or UNIQUE constraint raises, and the transaction is rolled back.
pub mod Commit
pub mod Scores
pub mod Summary
use text.Mathlib.Text.{◌==◌ as str_eq}
use crucible.Base.{
  ℕ, suc, ◌+◌, String, Bool, true, false, ◌||◌, List, [], ◌∷◌, ◌++◌, map, Option, none, some, ◌==◌,
  if◌then◌else◌, any, length, filter, Floats,
}
use crucible.Db.Run.{EvaluationRun, integrity_error}
use crucible.Db.Models.{World, Scenario, TraceMetadata, Judgment}
use crucible.Agents.State.{GraphScenario, TraceMeta, JudgmentData, EvaluationState, get_or}
use crucible.Api.Evaluation.{update_run}
use crucible.Worker.Result.{Result, ok, raised, ◌>>◌}

-- `d.get(key)` of a dict that was filled in this order: a later entry replaces an earlier one.
abbrev pub get {ℓ κ} : {K : Type ℓ} {A : Type κ} → (K → K → Bool) → K → List (K × A) → Option A
get eq k [] = none
get eq k ((j, a) ∷ d) = elim (get eq k d) [
  | some b ↦ some b
  | none ↦ if eq j k then some a else none
]

-- a storage key may be `None`, and `None` is a key of a dict like any other
abbrev pub same_key : Option String → Option String → Bool
same_key none none = true
same_key (some a) (some b) = str_eq a b
same_key _ _ = false

-- 1. Scenarios

scenario_row : (run_id id : ℕ) → GraphScenario → Scenario
scenario_row run_id id s = record {
  id = id;
  evaluation_run_id = run_id;
  title = get_or s.title "Unknown";
  description = get_or s.description "";
  expected_behavior = get_or s.expected_behavior "";
  category = get_or s.category "general";
  input_payload = get_or s.input_payload [];
}

-- the loop over the scenarios: `scenario_models`, by the graph's id
unfoldable pub scenario_models : (ℕ → ℕ) → (run_id n : ℕ) → List GraphScenario → List (ℕ × Scenario)
unfolding scenario_row
scenario_models uuid run_id n [] = []
scenario_models uuid run_id n (s ∷ ss) =
    (s.id, scenario_row run_id (uuid n) s) ∷ scenario_models uuid run_id (suc n) ss

-- 2. Traces

-- `scenario.id if scenario else None`
abbrev id_of : Option Scenario → Option ℕ
id_of none = none
id_of (some s) = some s.id

trace_row : (run_id : ℕ) → List (ℕ × Scenario) → TraceMeta → TraceMetadata
trace_row run_id scenarios t = record {
  id = t.trace_id;
  evaluation_run_id = run_id;
  scenario_id = id_of (get ◌==◌ t.scenario_id scenarios);
  storage_key = t.storage_key;
  turn_count = get_or t.turn_count 0;
  token_count = 0;
  duration_ms = 0;
  tool_call_count = 0;
  error_message = t.error_message;
}

-- `trace_models_by_key`
unfoldable pub trace_models :
    (run_id : ℕ) → List (ℕ × Scenario) → List TraceMeta → List (Option String × TraceMetadata)
unfolding trace_row
trace_models run_id scenarios [] = []
trace_models run_id scenarios (t ∷ ts) =
    (t.storage_key, trace_row run_id scenarios t) ∷ trace_models run_id scenarios ts

-- the second flush: `scenario_id` is NOT NULL
abbrev pub lacks_scenario : TraceMetadata → Bool
lacks_scenario t = elim t.scenario_id [ none ↦ true | some _ ↦ false ]

abbrev pub flush_traces : List TraceMetadata → Result (Unit {0})
flush_traces rows = if any lacks_scenario rows then raised integrity_error else ok tt

-- 3. Judgments

-- the rows that the loop adds, and its two counters
pub record Tally (F : Type 0) : Type 0 where
  pub rows : List (Judgment F)
  pub passed_count : ℕ
  pub failed_count : ℕ

module _ {F : Type 0} where
  abbrev judgment_row : (run_id : ℕ) → TraceMetadata → JudgmentData F → Judgment F
  judgment_row run_id trace j = record {
    evaluation_run_id = run_id;
    scenario_id = trace.scenario_id;
    trace_id = trace.id;
    passed = j.passed;
    overall_score = j.score;
    reasoning = some j.reasoning;
    judge_model = "gpt-4o";
  }

  abbrev tally : Judgment F → Tally F → Tally F
  tally j t =
      if j.passed
      then record t { rows = j ∷ t.rows; passed_count = suc t.passed_count }
      else record t { rows = j ∷ t.rows; failed_count = suc t.failed_count }

  unfoldable pub judge_loop :
      (run_id : ℕ) → List (Option String × TraceMetadata) → List (JudgmentData F) → Tally F
  judge_loop run_id traces [] = record { rows = []; passed_count = 0; failed_count = 0 }
  judge_loop run_id traces (j ∷ js) =
      let rest = judge_loop run_id traces js in
      elim (get same_key j.trace_key traces) [
        | none ↦ rest
        | some trace ↦ tally (judgment_row run_id trace j) rest
      ]

  -- the commit: `trace_id` is UNIQUE over the whole table
  abbrev pub repeats_trace : List (Judgment F) → List (Judgment F) → Bool
  repeats_trace stored [] = false
  repeats_trace stored (j ∷ js) =
      any (λ k. k.trace_id == j.trace_id) stored || repeats_trace (j ∷ stored) js

  abbrev pub commit_judgments : List (Judgment F) → List (Judgment F) → Result (Unit {0})
  commit_judgments stored rows = if repeats_trace stored rows then raised integrity_error else ok tt

module _ ⦃fl : Floats⦄ where
  open fl use {Float, decimal, add, div}

  -- `[j.get("score", 0.0) for j in judgments_data if j.get("trace_key") in trace_models_by_key]`
  abbrev pub is_key_of : List (Option String × TraceMetadata) → JudgmentData Float → Bool
  is_key_of traces j = elim (get same_key j.trace_key traces) [ none ↦ false | some _ ↦ true ]

  abbrev pub scores : List (Option String × TraceMetadata) → List (JudgmentData Float) → List Float
  scores traces js = map (λ j. j.score) (filter (is_key_of traces) js)

  -- Python's `sum` starts from 0 and adds from the left
  abbrev pub sum_from : Float → List Float → Float
  sum_from acc [] = acc
  sum_from acc (x ∷ xs) = sum_from (add acc x) xs

  -- `if scores: run.avg_score = sum(scores) / len(scores)`
  abbrev pub average : Option Float → List Float → Option Float
  average old [] = old
  average old (x ∷ xs) = some (div (sum_from (decimal 0 0) (x ∷ xs)) (decimal (length (x ∷ xs)) 0))

  abbrev pub summarise :
      (now : ℕ)
      → EvaluationState Float
      → Tally Float
      → List Float
      → EvaluationRun Float
      → EvaluationRun Float
  summarise now final t xs r = record r {
    passed_scenarios = r.passed_scenarios + t.passed_count;
    failed_scenarios = r.failed_scenarios + t.failed_count;
    total_scenarios = r.total_scenarios + (t.passed_count + t.failed_count);
    avg_score = average r.avg_score xs;
    drift_profile = final.drift_profile;
    evolution_suggestions = some final.evolution_suggestions;
    embedding_model_version = some "text-embedding-3-small";
    updated_at = now;
  }

  unfoldable pub persist_final_state :
      (uuid : ℕ → ℕ) → (now run_id : ℕ) → EvaluationState Float → World Float → Result (World Float)
  unfolding scenario_models trace_models judge_loop
  persist_final_state uuid now run_id final w =
      let scenarios = scenario_models uuid run_id 0 final.scenarios in
      let traces = trace_models run_id scenarios final.traces in
      let t = judge_loop run_id traces final.judgments in
      flush_traces (map (λ e. e.1) traces)
      >> commit_judgments w.judgments t.rows
      >> ok (
          update_run run_id (summarise now final t (scores traces final.judgments)) (record w {
            scenarios = w.scenarios ++ map (λ e. e.1) scenarios;
            trace_metadata = w.trace_metadata ++ map (λ e. e.1) traces;
            judgments = w.judgments ++ t.rows;
          }))
