-- ===== src/Worker/Persist/Scores.antt =====
-- The summary of a run against the judgments that `_persist_final_state` of
-- src/backend/worker/tasks.py stores.
use crucible.Base.{ℕ, ◌≡◌, refl, String, not, List, [], ◌∷◌, map, Option, arith, count, Floats}
use crucible.Db.Models.{TraceMetadata}
use crucible.Agents.State.{JudgmentData}
use crucible.Worker.Persist.{judge_loop, scores}

module _ ⦃fl : Floats⦄ (run_id : ℕ) (traces : List (Option String × TraceMetadata)) where
  open fl use {Float}

  -- The average score is taken of the scores of the stored judgments, in their order, and the two
  -- counters count the stored judgments that passed and those that did not.
  pub judge_loop-scores :
      (js : List (JudgmentData Float))
      → let t = judge_loop run_id traces js in
        (scores traces js ≡ map (λ j. j.overall_score) t.rows)
        × (t.passed_count ≡ count (λ j. j.passed) t.rows)
        × (t.failed_count ≡ count (λ j. not j.passed) t.rows)
  unfolding judge_loop
  judge_loop-scores [] = (refl, refl, refl)
  judge_loop-scores (j ∷ js) = ground (arith, judge_loop-scores js)
