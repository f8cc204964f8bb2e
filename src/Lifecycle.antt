-- ===== src/Lifecycle.antt =====
-- All that can happen to the evaluation runs: the transactions of the API's handlers
-- (src/backend/api/routes/evaluation.py), of the workers (worker/tasks.py) and of the beat process
-- (worker/beat.py), in any order and by any number of processes. Each constructor is one
-- transaction, placed where it commits; a handler with several transactions is several steps, with
-- any steps of others in between. A transaction that decides on what an earlier statement of its own
-- read (`cancel`, `delete`, `set_baseline`) may have read any tables.
pub mod Rows
pub mod Unique
pub mod ApiRefines
pub mod WorkerRefines
pub mod Refines
pub mod Invariant
pub mod Transitions
pub mod Moves
pub mod Executes
pub mod Ownership
pub mod Baselines
pub mod BaselineSteps
use crucible.Base.{
  ℕ, Bool, true, false, ◌≡◌, ◌==◌, ◌||◌, List, Option, none, some, any, count, Floats, ◌⊎◌,
}
use crucible.Db.Run.{EvaluationRun, RunStatus, ErrorMessage, is_terminal, Exn}
use crucible.Db.Models.{World, User, Task, execute_evaluation_run, delete_s3_traces}
use crucible.Agents.State.{EvaluationState}
use crucible.Api.Http.{Delay, Enqueue}
use crucible.Api.Evaluation.{
  EvaluationRunCreate, has_id, insert_run, record_enqueue, cancel_evaluation_run,
  delete_evaluation_run,
}
use crucible.Api.Baseline.{set_golden_baseline}
use crucible.Worker.Result.{ok}
use crucible.Worker.Persist.{persist_final_state}
use crucible.Worker.Claim.{claim, record_task_id, commit_terminal, heartbeat}
use crucible.Worker.Beat.{sweep_zombie_runs}

-- the broker has been given the task that executes a run
abbrev pub is_task_of : ℕ → Task → Bool
is_task_of run_id (execute_evaluation_run i) = i == run_id
is_task_of run_id (delete_s3_traces _ _) = false

abbrev pub is_enqueued : {F : Type 0} → ℕ → World F → Bool
is_enqueued run_id w = any (is_task_of run_id) w.broker

module _ ⦃fl : Floats⦄ where
  open fl use {Float}

  -- `new_id` is the key that `uuid4` gave, which no row has and no task names. A worker claims a run
  -- only on a task from the broker.
  pub data Step (w : World Float) : World Float → Type 0 where
    create :
        (run_in : EvaluationRunCreate Float) (user : User) (new_id now : ℕ)
        → count (has_id new_id) w.runs ≡ 0
        → is_enqueued new_id w ≡ false
        → Step w (insert_run run_in user new_id now w).1
    enqueue :
        (outcome : Enqueue) (now : ℕ) (db_run : EvaluationRun Float)
        → Step w (record_enqueue outcome now db_run w).1
    cancel :
        (run_id : ℕ) (user : User) (now : ℕ) (read : World Float)
        → Step w (cancel_evaluation_run run_id user now read w).1
    delete :
        (run_id : ℕ) (user : User) (delay : Delay) (read : World Float)
        → Step w (delete_evaluation_run run_id user delay read w).1
    set_baseline :
        (run_id : ℕ) (user : User) (now : ℕ) (read seen : World Float)
        → Step w (set_golden_baseline run_id user now read seen w).1
    take_claim :
        (run_id now : ℕ) {w' : World Float}
        → is_enqueued run_id w ≡ true
        → claim run_id now w ≡ some w'
        → Step w w'
    note_task : (run_id now : ℕ) (task_id : Option ℕ) → Step w (record_task_id run_id now task_id w)
    beat : (run_id now : ℕ) → Step w (heartbeat run_id now w)
    persist :
        (uuid : ℕ → ℕ) (now run_id : ℕ) (final : EvaluationState Float) {w' : World Float}
        → persist_final_state uuid now run_id final w ≡ ok w'
        → Step w w'
    finish :
        (run_id now : ℕ) (status : RunStatus) (message : Option ErrorMessage)
        → is_enqueued run_id w ≡ true
        → is_terminal status ≡ true
        → Step w (commit_terminal run_id now status message w)
    sweep : (timeout_secs now : ℕ) → Step w (sweep_zombie_runs timeout_secs now w)

  -- any number of steps
  pub data Reach (w : World Float) : World Float → Type 0 where
    here : Reach w w
    next : {u v : World Float} → Reach w u → Step u v → Reach w v

  -- no other transaction commits between the first statement of `set_golden_baseline` and its commit
  unfoldable pub IsAlone : {w v : World Float} → Step w v → Type 0
  IsAlone {w} (Step.set_baseline run_id user now read seen) = (read ≡ w) × (seen ≡ w)
  IsAlone (Step.create _ _ _ _ _ _) = Unit
  IsAlone (Step.enqueue _ _ _) = Unit
  IsAlone (Step.cancel _ _ _ _) = Unit
  IsAlone (Step.delete _ _ _ _) = Unit
  IsAlone (Step.take_claim _ _ _ _) = Unit
  IsAlone (Step.note_task _ _ _) = Unit
  IsAlone (Step.beat _ _) = Unit
  IsAlone (Step.persist _ _ _ _ _) = Unit
  IsAlone (Step.finish _ _ _ _ _ _) = Unit
  IsAlone (Step.sweep _ _) = Unit

  -- every `set_golden_baseline` on the way is alone
  unfoldable pub AreAlone : {w v : World Float} → Reach w v → Type 0
  unfolding IsAlone
  AreAlone here = Unit
  AreAlone (next r st) = AreAlone r × IsAlone st
