-- ===== src/Worker/Persist/Summary.antt =====
-- The numbers that `_persist_final_state` of src/backend/worker/tasks.py leaves in the row of a run,
-- against the judgments that it stores.
use mathlib.Core.List.{foldl}
use crucible.Base.{
  ℕ, ◌+◌, ◌≡◌, ◌∙◌, refl, ap, not, List, [], ◌∷◌, ◌++◌, map, length, Option, some, arith, count,
  Floats, find?, find?-passes,
}
use crucible.Db.Run.{EvaluationRun}
use crucible.Db.Table.{update, find?-update}
use crucible.Db.Models.{World, Judgment}
use crucible.Agents.State.{EvaluationState}
use crucible.Api.Evaluation.{has_id}
use crucible.Worker.Result.{ok}
use crucible.Worker.Persist.{
  scenario_models, trace_models, judge_loop, scores, sum_from, average, summarise,
  persist_final_state,
}
use crucible.Worker.Persist.Scores.{judge_loop-scores}

module _ ⦃fl : Floats⦄ where
  open fl use {Float, decimal, add, div}

  -- the mean of the scores, added up from the left, or the old value where there are none
  abbrev pub mean_or : Option Float → List Float → Option Float
  mean_or old [] = old
  mean_or old (x ∷ xs) = some (div (foldl add (decimal 0 0) (x ∷ xs)) (decimal (length (x ∷ xs)) 0))

  sum_from-foldl : (acc : Float) (xs : List Float) → sum_from acc xs ≡ foldl add acc xs
  sum_from-foldl acc [] = refl
  sum_from-foldl acc (x ∷ xs) = sum_from-foldl (add acc x) xs

  average-mean_or : (old : Option Float) (xs : List Float) → average old xs ≡ mean_or old xs
  average-mean_or old [] = refl
  average-mean_or old (x ∷ xs) =
      ap (λ s. some (div s (decimal (length (x ∷ xs)) 0))) (sum_from-foldl (decimal 0 0) (x ∷ xs))

  count-not :
      (js : List (Judgment Float))
      → count (λ j. j.passed) js + count (λ j. not j.passed) js ≡ length js
  count-not [] = refl
  count-not (j ∷ js) = ground (arith, count-not js)

  -- `row` is `run` with the judgments counted in and their mean as the average
  pub record IsSummary (rows : List (Judgment Float)) (run row : EvaluationRun Float) : Type 0 where
    pub passed : row.passed_scenarios ≡ run.passed_scenarios + count (λ j. j.passed) rows
    pub failed : row.failed_scenarios ≡ run.failed_scenarios + count (λ j. not j.passed) rows
    pub total : row.total_scenarios ≡ run.total_scenarios + length rows
    pub avg_score : row.avg_score ≡ mean_or run.avg_score (map (λ j. j.overall_score) rows)

  -- A save that succeeds, of a run whose row is there, adds judgments to the stored ones, and leaves
  -- in the row the former numbers of passed, failed and all scenarios, raised by the numbers of the
  -- added judgments that passed, that failed, and of all, and as the average the mean of their scores,
  -- or the former average where no judgment was added.
  pub persist_final_state-IsSummary :
      (uuid : ℕ → ℕ) (now run_id : ℕ) (final : EvaluationState Float) (w w' : World Float)
      (run : EvaluationRun Float)
      → persist_final_state uuid now run_id final w ≡ ok w'
      → find? (has_id run_id) w.runs ≡ some run
      → (rows : List (Judgment Float)) × (row : EvaluationRun Float) × (w'.judgments
          ≡ w.judgments ++ rows)
        × (find? (has_id run_id) w'.runs ≡ some row)
        × IsSummary rows run row
  persist_final_state-IsSummary uuid now run_id final w w' run saved found =
      let traces =
        trace_models run_id (scenario_models uuid run_id 0 final.scenarios) final.traces in
      let t = judge_loop run_id traces final.judgments in
      let xs = scores traces final.judgments in
      let stored : (w'.judgments ≡ w.judgments ++ t.rows)
          × (w'.runs ≡ update (has_id run_id) (summarise now final t xs) w.runs) =
        unfold persist_final_state in (ground arith, ground arith) in
      let (of_rows, passed, failed) = judge_loop-scores run_id traces final.judgments in
      (
        t.rows,
        summarise now final t xs run,
        stored.0,
        ap (find? (has_id run_id)) stored.1
            ∙ find?-update (has_id run_id) (has_id run_id) (summarise now final t xs) w.runs
                (λ y. refl) found (find?-passes (has_id run_id) w.runs found),
        record {
          passed = ap (λ n. run.passed_scenarios + n) passed;
          failed = ap (λ n. run.failed_scenarios + n) failed;
          total = omega (arith, passed, failed, count-not t.rows);
          avg_score = average-mean_or run.avg_score xs ∙ ap (mean_or run.avg_score) of_rows;
        },
      )
