-- ===== src/Agents/Judge.antt =====
-- src/backend/agents/judge.py. The store and the language model are parameters; a call is told
-- apart by its arguments and its attempt. The traces of one call are judged concurrently and share
-- nothing, so `asyncio.gather` gives the list of their results, none of which is an exception.
pub mod Once
use Prim.Native.String.{◌++◌ as str_append, count as str_len}
use text.Mathlib.Text.{◌==◌ as str_eq}
use crucible.Base.{
  ℕ, String, Bool, true, false, not, List, [], ◌∷◌, Option, none, some, ◌==◌, ltb, any, filter,
  find?, length, Floats, if◌then◌else◌,
}
use crucible.Db.Run.{Exn, key_error, retry_error}
use crucible.Worker.Result.{Result, ok, raised}
use crucible.Agents.State.{
  GraphScenario, TraceMeta, JudgmentData, GraphError, EvaluationState, Update, no_update,
  scenario_not_found,
}
use crucible.Agents.Orchestrator.{is_empty}
use crucible.Agents.Retry.{retry_3}

-- src/backend/schemas/evaluation.py
pub record JudgmentResponse (F : Type 0) : Type 0 where
  pub score : F
  pub reasoning : String
  pub passed : Bool

-- What `judge_single_trace` returns: `{"error": …}`, or a judgment with its cost.
pub data Judged (F : Type 0) : Type 0 where
  error : GraphError → Judged F
  judgment : JudgmentData F → (cost_usd : F) → Judged F

-- `ask` reads the trace as JSON, formats the prompt and calls the language model.
pub record Judge (F : Type 0) : Type 0 where
  pub str : Exn → String
  pub download_trace : (storage_key : String) → (attempt : ℕ) → Result String
  pub ask : (title description trace : String) → Result (JudgmentResponse F × F)

-- `if not storage_key`
abbrev pub present : Option String → Option String
present none = none
present (some k) = if str_eq k "" then none else some k

module _ ⦃fl : Floats⦄ where
  open fl use {Float, decimal, add}

  -- a judgment that no model made
  abbrev pub unjudged : TraceMeta → String → Judged Float
  unjudged t reasoning =
      judgment
        (record {
          scenario_id = t.scenario_id;
          trace_key = t.storage_key;
          score = decimal 0 0;
          overall_score = none;
          reasoning = reasoning;
          passed = false;
        })
        (decimal 0 0)

  module _ (env : Judge Float) where
    open env use {str, download_trace, ask}

    -- `scenario["title"]` and `scenario["description"]` raise a `KeyError` where they are missing
    unfoldable pub ask_for :
        GraphScenario → (trace_string : String) → Result (JudgmentResponse Float × Float)
    ask_for scenario trace_string = elim scenario.title [
      | none ↦ raised key_error
      | some title ↦ elim scenario.description [
        | none ↦ raised key_error
        | some description ↦ ask title description trace_string
      ]
    ]

    unfoldable pub judge_single_trace : EvaluationState Float → TraceMeta → Judged Float
    unfolding ask_for retry_3
    judge_single_trace state t = elim (find? (λ s. s.id == t.scenario_id) state.scenarios) [
      | none ↦ error (scenario_not_found t.scenario_id)
      | some scenario ↦ elim (present t.storage_key) [
        | none ↦ unjudged t "UNJUDGEABLE - NO TRACE (SIMULATION FAILED)"
        | some storage_key ↦ elim (retry_3 (λ _. retry_error) (download_trace storage_key)) [
          | raised e ↦ unjudged t (str_append "LLM Judge Error: " (str e))
          | ok trace_string ↦
              if ltb 100000 (str_len trace_string)
              then unjudged t "UNJUDGEABLE - PAYLOAD TOO LARGE"
              else elim (ask_for scenario trace_string) [
                | raised e ↦ unjudged t (str_append "LLM Judge Error: " (str e))
                | ok (parsed, cost) ↦
                    judgment
                      (record {
                        scenario_id = t.scenario_id;
                        trace_key = t.storage_key;
                        score = parsed.score;
                        overall_score = none;
                        reasoning = parsed.reasoning;
                        passed = parsed.passed;
                      })
                      cost
              ]
        ]
      ]
    ]

    -- the loop over the results: errors, judgments, and the cost from the left
    unfoldable pub collect :
        Float → List (Judged Float) → List GraphError × List (JudgmentData Float) × Float
    collect total_cost [] = ([], [], total_cost)
    collect total_cost (error e ∷ rs) = let (es, js, c) = collect total_cost rs in (e ∷ es, js, c)
    collect total_cost (judgment j cost ∷ rs) =
        let (es, js, c) = collect (add total_cost cost) rs in (es, j ∷ js, c)

    -- `t.get("scenario_id") not in judged_scenario_ids`
    abbrev pub is_unjudged : List (JudgmentData Float) → TraceMeta → Bool
    is_unjudged judgments t = not (any (λ j. j.scenario_id == t.scenario_id) judgments)

    abbrev pub errors_of : List GraphError → Option (List GraphError)
    errors_of [] = none
    errors_of (e ∷ es) = some (e ∷ es)

    abbrev pub judge_all : EvaluationState Float → List TraceMeta → List (Judged Float)
    judge_all state [] = []
    judge_all state (t ∷ ts) = judge_single_trace state t ∷ judge_all state ts

    unfoldable pub judge_traces : EvaluationState Float → List TraceMeta → Update Float
    unfolding judge_single_trace collect
    judge_traces state [] = no_update
    judge_traces state (t ∷ ts) =
        let (es, js, total_cost) = collect (decimal 0 0) (judge_all state (t ∷ ts)) in
        record no_update {
          judgments = some js;
          total_cost_usd = some total_cost;
          turn_count = some (length (t ∷ ts));
          errors = errors_of es;
        }

    unfoldable pub judge_trace_node : EvaluationState Float → Update Float
    unfolding judge_traces
    judge_trace_node state = judge_traces state (filter (is_unjudged state.judgments) state.traces)
