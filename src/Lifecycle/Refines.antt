-- ===== src/Lifecycle/Refines.antt =====
-- Every transaction is an allowed change of the table of runs: the code refines the life of a run
-- that `Lifecycle.Rows` states.
use crucible.Base.{any-append, ℕ, ◌≡◌, true, [], ◌∷◌, arith, Floats}
use crucible.Db.Models.{World, execute_evaluation_run, delete_s3_traces}
use crucible.Api.Http.{enqueued, not_enqueued, not_recorded}
use crucible.Api.Evaluation.{
  insert_run, record_enqueue, cancel_evaluation_run, delete_evaluation_run,
}
use crucible.Api.Baseline.{set_golden_baseline}
use crucible.Worker.Claim.{claim, record_task_id, commit_terminal, heartbeat}
use crucible.Worker.Beat.{sweep_zombie_runs}
use crucible.Worker.Persist.{persist_final_state}
use crucible.Lifecycle.{Step, is_enqueued, is_task_of}
use crucible.Lifecycle.Rows.{Change}
use crucible.Lifecycle.ApiRefines.{
  insert_run-Change, record_enqueue-Change, cancel-Change, delete-Change,
  set_golden_baseline-Change,
}
use crucible.Lifecycle.WorkerRefines.{
  claim-Change, record_task_id-Change, heartbeat-Change, commit_terminal-Change, sweep-Change,
  persist-Change,
}

module _ ⦃fl : Floats⦄ {w : World fl.Float} where
  -- Every transaction changes the table of runs in one of three ways: it changes the rows by allowed
  -- steps, which keep the keys, the owner and the balance of the counters and move the status along
  -- `StatusStep`; or it adds a pending run with a new key, of a tenant with a free slot; or it
  -- deletes the runs with one key. The rows and tables that `cancel_evaluation_run`,
  -- `delete_evaluation_run` and `set_golden_baseline` have read may be any.
  pub Step-Change : {w' : World fl.Float} → Step w w' → Change (λ i. is_enqueued i w) w.runs w'.runs
  Step-Change (Step.create run_in user new_id now fresh unused) =
      insert_run-Change _ run_in user new_id now w fresh unused
  Step-Change (Step.enqueue outcome now r) = record_enqueue-Change _ outcome now r w
  Step-Change (Step.cancel run_id user now read) = cancel-Change _ run_id user now read w
  Step-Change (Step.delete run_id user delay read) = delete-Change _ run_id user delay read w
  Step-Change (Step.set_baseline run_id user now read seen) =
      set_golden_baseline-Change _ run_id user now read seen w
  Step-Change (Step.take_claim run_id now {w' = v} q e) = claim-Change _ run_id now w v q e
  Step-Change (Step.note_task run_id now task_id) = record_task_id-Change _ run_id now task_id w
  Step-Change (Step.beat run_id now) = heartbeat-Change _ run_id now w
  Step-Change (Step.persist uuid now run_id final {w' = v} e) =
      persist-Change _ uuid now run_id final w v e
  Step-Change (Step.finish run_id now status message q t) =
      commit_terminal-Change _ run_id now status message w q t
  Step-Change (Step.sweep timeout_secs now) = sweep-Change _ timeout_secs now w

  -- The broker forgets no task.
  pub Step-is_enqueued :
      {w' : World fl.Float} (i : ℕ) → Step w w' → is_enqueued i w ≡ true → is_enqueued i w' ≡ true
  unfolding insert_run record_enqueue cancel_evaluation_run delete_evaluation_run
      set_golden_baseline claim record_task_id heartbeat commit_terminal sweep_zombie_runs
      persist_final_state
  Step-is_enqueued i (Step.create run_in user new_id now fresh unused) h = ground arith
  Step-is_enqueued i (Step.enqueue (enqueued task_id) now r) h =
      ground (arith, any-append (is_task_of i) w.broker (execute_evaluation_run r.id ∷ []))
  Step-is_enqueued i (Step.enqueue (not_enqueued e) now r) h = h
  Step-is_enqueued i (Step.enqueue (not_recorded task_id stored marked e) now r) h =
      ground (arith, any-append (is_task_of i) w.broker (execute_evaluation_run r.id ∷ []))
  Step-is_enqueued i (Step.cancel run_id user now read) h = ground arith
  Step-is_enqueued i (Step.delete run_id user delay read) h =
      ground
        (arith, any-append (is_task_of i) w.broker (delete_s3_traces run_id user.tenant_id ∷ []))
  Step-is_enqueued i (Step.set_baseline run_id user now read seen) h = ground arith
  Step-is_enqueued i (Step.take_claim run_id now q e) h = ground arith
  Step-is_enqueued i (Step.note_task run_id now task_id) h = h
  Step-is_enqueued i (Step.beat run_id now) h = ground arith
  Step-is_enqueued i (Step.persist uuid now run_id final e) h = ground arith
  Step-is_enqueued i (Step.finish run_id now status message q t) h = ground arith
  Step-is_enqueued i (Step.sweep timeout_secs now) h = ground arith
