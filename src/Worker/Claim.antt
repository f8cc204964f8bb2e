-- ===== src/Worker/Claim.antt =====
-- src/backend/worker/tasks.py: the updates of the run's row that `_execute_evaluation_run_async` and
-- `_heartbeat_loop` make, each a transaction of its own.
use crucible.Base.{ℕ, Bool, ◌&&◌, ◌||◌, Option, none, some, ◌==◌, if◌then◌else◌, find?}
use crucible.Db.Run.{EvaluationRun, RunStatus, is_status, ErrorMessage}
use crucible.Db.Table.{update, rowcount}
use crucible.Db.Models.{World}
use crucible.Api.Evaluation.{has_id, update_run}

module _ {F : Type 0} where
  -- `update(EvaluationRun).where(id == run_id, status == "pending").values(status="running")`
  abbrev pub is_claimable : ℕ → EvaluationRun F → Bool
  is_claimable run_id r = has_id run_id r && is_status r.status RunStatus.pending

  -- `none`: the row count is 0, and the worker returns
  unfoldable pub claim : (run_id now : ℕ) → World F → Option (World F)
  claim run_id now w =
      if rowcount (is_claimable run_id) w.runs == 0
      then none
      else some (record w {
        runs =
            update (is_claimable run_id)
              (λ r. record r { status = RunStatus.running; updated_at = now }) w.runs;
      })

  unfoldable pub record_task_id : (run_id now : ℕ) → Option ℕ → World F → World F
  record_task_id run_id now task_id =
      update_run run_id (λ r. record r { celery_task_id = task_id; updated_at = now })

  -- `status.in_(["running", "cancelled"])`
  abbrev pub is_finishable : ℕ → EvaluationRun F → Bool
  is_finishable run_id r =
      has_id run_id r
      && (is_status r.status RunStatus.running || is_status r.status RunStatus.cancelled)

  -- the terminal update of the `finally` block
  unfoldable pub commit_terminal :
      (run_id now : ℕ) → RunStatus → Option ErrorMessage → World F → World F
  commit_terminal run_id now status message w =
      if rowcount (is_finishable run_id) w.runs == 0 then w else record w {
        runs =
            update (is_finishable run_id)
              (λ r. record r { status = status; error_message = message; updated_at = now }) w.runs;
      }

  -- one round of `_heartbeat_loop`
  unfoldable pub heartbeat : (run_id now : ℕ) → World F → World F
  heartbeat run_id now w = elim (find? (has_id run_id) w.runs) [
    | none ↦ w
    | some run ↦
        if is_status run.status RunStatus.running
        then update_run run_id (λ r. record r { last_heartbeat_at = some now; updated_at = now }) w
        else w
  ]
