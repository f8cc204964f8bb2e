-- ===== src/Tests/EndRuns.antt =====
-- Executions that end, that meet an exception and that are cancelled.
use crucible.Base.{ℕ, ◌≡◌, ◌++◌, refl, true, false, [], ◌∷◌, none, some}
use crucible.Db.Run.{RunStatus, DriftProfile, validation_error, attribute_error, text_of}
use crucible.Db.Models.{World}
use crucible.Agents.State.{no_update, dict_update}
use crucible.Worker.Persist.{persist_final_state}
use crucible.Agents.Orchestrator.{generate}
use crucible.Worker.Claim.{claim, record_task_id}
use crucible.Worker.Stream.{stream_loop, snapshot}
use crucible.Worker.Execution.{Environment, Locals, ready, end, error}
use crucible.Worker.Tasks.{execute_evaluation_run, bare_event, save}
use crucible.Worker.Tasks.Begins.{Begins, Ends, streaming}
use crucible.Worker.Tasks.Terminal.{
  execute_evaluation_run_raises, execute_evaluation_run_completes, execute_evaluation_run-cancelled,
}
use crucible.Tests.Data.{nat_floats, world, run_of, agent}

abbrev quiet : Environment ℕ
quiet = record {
  task_id = some 1;
  now = 10;
  uuid = λ n. n;
  after_claim = λ w. w;
  setup = ready;
  stream = record { others = λ w. w; elapsed = false; updates = (generate, no_update) ∷ [] } ∷ [];
  stream_error = none;
  before_save = λ w. w;
  before_terminal = λ w. w;
}

-- before the second event, the run's user cancels it
abbrev cancelled : Environment ℕ
cancelled = record quiet {
  stream =
      record { others = λ w. w; elapsed = false; updates = (generate, no_update) ∷ [] }
      ∷ record {
        others = λ w. record w {
          runs = record (run_of 7 RunStatus.cancelled) { celery_task_id = some 1 } ∷ [];
        };
        elapsed = true;
        updates = [];
      }
      ∷ [];
}

abbrev broken : Environment ℕ
broken = record quiet { stream_error = some attribute_error }

abbrev claimed : World ℕ
claimed = record world {
  runs =
      record (run_of 7 RunStatus.running) { updated_at = 10 } ∷ run_of 8 RunStatus.completed ∷ [];
}

abbrev begun : Locals ℕ
unfolding record_task_id
begun =
    streaming 7 quiet (record (run_of 7 RunStatus.running) { updated_at = 10 }) agent
      (record_task_id 7 10 (some 1) claimed)

claims : claim 7 10 world ≡ some claimed
unfolding claim
claims = refl

-- the cancelleds differ only in what follows the beginning
begins :
    (env : Environment ℕ)
    → env.after_claim claimed ≡ claimed
    → env.now ≡ 10
    → env.task_id ≡ some 1
    → env.setup ≡ ready
    → Begins 7 env world (record (run_of 7 RunStatus.running) { updated_at = 10 }) agent begun
unfolding begun
begins env calm time task is_ready = record {
  known = run_of 7 RunStatus.pending;
  claimed = claimed;
  row = refl;
  claims = rw time claims;
  found = rw calm refl;
  configured = rw calm refl;
  is_ready = is_ready;
  begins = rw (calm, time, task) refl;
}

abbrev after_raise : Locals ℕ
unfolding stream_loop record_task_id
after_raise = (stream_loop 7 (some attribute_error) broken.stream begun).1

execute_evaluation_run_raises_example :
    Ends 7 broken
      (execute_evaluation_run 7 broken world)
      (record (run_of 7 RunStatus.failed) {
        celery_task_id = some 1;
        error_message = some (text_of attribute_error);
        updated_at = 10;
      })
      (after_raise.published
        ++ bare_event 7 RunStatus.failed error (some attribute_error) after_raise ∷ [])
unfolding stream_loop record_task_id begun after_raise
execute_evaluation_run_raises_example =
    execute_evaluation_run_raises 7 broken world attribute_error (begins broken refl refl refl refl)
      refl refl refl

abbrev looped : Environment ℕ → Locals ℕ
unfolding stream_loop record_task_id
looped env = (stream_loop 7 env.stream_error env.stream begun).1

abbrev saved : Environment ℕ → Locals ℕ
unfolding save looped
saved env = (save 7 env (looped env)).1

execute_evaluation_run_completes_example :
    Ends 7 quiet
      (execute_evaluation_run 7 quiet world)
      (record ((run_of 7 RunStatus.completed)) {
        celery_task_id = some 1;
        error_message = none;
        updated_at = 10;
        drift_profile = some DriftProfile.empty;
        evolution_suggestions = some [];
        embedding_model_version = some "text-embedding-3-small";
      })
      ((saved quiet).published ++ snapshot 7 RunStatus.completed end (saved quiet) ∷ [])
unfolding stream_loop record_task_id save saved looped begun persist_final_state dict_update
execute_evaluation_run_completes_example =
    execute_evaluation_run_completes 7 quiet world (begins quiet refl refl refl refl) refl refl refl
      refl refl

execute_evaluation_run-cancelled_example :
    Ends 7 cancelled
      (execute_evaluation_run 7 cancelled world)
      (record (run_of 7 RunStatus.cancelled) {
        celery_task_id = some 1;
        updated_at = 10;
        error_message = some (text_of validation_error);
        drift_profile = some DriftProfile.empty;
        evolution_suggestions = some [];
        embedding_model_version = some "text-embedding-3-small";
      })
      ((saved cancelled).published
        ++ bare_event 7 RunStatus.failed error (some validation_error) (saved cancelled) ∷ [])
unfolding stream_loop record_task_id save saved looped begun persist_final_state dict_update
execute_evaluation_run-cancelled_example =
    execute_evaluation_run-cancelled 7 cancelled world (begins cancelled refl refl refl refl) refl
      refl refl refl refl refl
