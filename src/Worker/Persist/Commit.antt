-- ===== src/Worker/Persist/Commit.antt =====
-- What a committed `_persist_final_state` has written.
use crucible.Base.{ℕ, ◌≡◌, List, arith, Floats}
use crucible.Db.Table.{update}
use crucible.Db.Models.{World}
use crucible.Agents.State.{EvaluationState}
use crucible.Api.Evaluation.{has_id}
use crucible.Worker.Result.{ok}
use crucible.Worker.Persist.{
  scenario_models, trace_models, judge_loop, Tally, scores, summarise, persist_final_state,
}

module _ ⦃fl : Floats⦄ where
  open fl use {Float}

  pub persist-runs :
      (uuid : ℕ → ℕ) (now run_id : ℕ) (final : EvaluationState Float) (w w' : World Float)
      → persist_final_state uuid now run_id final w ≡ ok w'
      → (t : Tally Float) × (xs : List Float) × (w'.runs
          ≡ update (has_id run_id) (summarise now final t xs) w.runs)
  persist-runs uuid now run_id final w w' e =
      let traces =
        trace_models run_id (scenario_models uuid run_id 0 final.scenarios) final.traces in
      (
        judge_loop run_id traces final.judgments,
        scores traces final.judgments,
        unfold persist_final_state in ground arith,
      )
