-- ===== src/Worker/Tasks/Terminal.antt =====
-- src/backend/worker/tasks.py: what an execution of `_execute_evaluation_run_async` leaves in the
-- run's row, when the stream ends, when it raises and when the run was cancelled.
use mathlib.Core.Path.{subst}
use crucible.Base.{
  ℕ, ◌≡◌, ◌∙◌, refl, ap, true, false, [], ◌∷◌, ◌++◌, none, some, arith, Floats, find?, Option-cases,
  inl, inr,
}
use crucible.Db.Run.{EvaluationRun, RunStatus, Exn, text_of, validation_error}
use crucible.Db.Models.{World, AgentConfig}
use crucible.Api.Evaluation.{has_id}
use crucible.Worker.Result.{Result, ok, raised}
use crucible.Worker.Claim.{is_finishable}
use crucible.Worker.Persist.{persist_final_state}
use crucible.Worker.Stream.{stream_loop, snapshot}
use crucible.Worker.Execution.{end, error, RunObject, Locals, Environment, publish}
use crucible.Worker.Tasks.{
  bare_event, save, announce, save_and_announce, stream_and_save, finally_block,
  execute_evaluation_run, final_status, is_fatal, message_of,
}
use crucible.Worker.Result.{Result-cases}
use crucible.Worker.Tasks.Ends.{Outcome, undisturbed, noticed, stream_loop-Outcome}
use crucible.Worker.Tasks.Begins.{
  then_ok, then_raised, commit_terminal_found, Begins, Begins-execute, Ends, raised-Ends,
}

module _ ⦃fl : Floats⦄ (run_id : ℕ) (env : Environment fl.Float) where
  open fl use {Float}

  -- An execution whose stream raises returns normally; where the run is still running or cancelled
  -- then, it becomes failed with the exception's text as its error message, and the last event tells so.
  pub execute_evaluation_run_raises :
      (w : World Float) {run row : EvaluationRun Float} {agent : AgentConfig} {l s : Locals Float}
      (e : Exn)
      → Begins run_id env w run agent l
      → stream_loop run_id env.stream_error env.stream l ≡ (raised e, s)
      → find? (has_id run_id) (env.before_terminal s.world).runs ≡ some row
      → is_finishable run_id row ≡ true
      → Ends run_id env
          (execute_evaluation_run run_id env w)
          (record row {
            status = RunStatus.failed;
            error_message = some (text_of e);
            updated_at = env.now;
          })
          (s.published ++ bare_event run_id RunStatus.failed error (some e) s ∷ [])
  unfolding stream_and_save
  execute_evaluation_run_raises w {l = l} e b broken found due =
      let loop = stream_loop run_id env.stream_error env.stream in
      let outcome =
        subst (λ r. Outcome run_id l r) broken
          (stream_loop-Outcome run_id env.stream_error env.stream l) in
      rw (Begins-execute run_id env w b, then_raised loop (save_and_announce run_id env) broken)
        (elim outcome [
          | undisturbed same ↦
              raised-Ends run_id env e false _ (same.run ∙ ap (λ t. t.run) b.begins)
                (same.has_bus ∙ ap (λ t. t.has_bus) b.begins)
                (same.is_cancelled ∙ ap (λ t. t.is_cancelled) b.begins) found due
          | noticed o r c d ↦ absurd (ground (arith, o))
        ])

  record SameEnd (s t : Locals Float) : Type 0 where
    has_bus : t.has_bus ≡ s.has_bus
    is_cancelled : t.is_cancelled ≡ s.is_cancelled
    no_error : is_fatal run_id env t.run ≡ false
    no_message : message_of run_id env t.run ≡ none

  save-SameEnd : (s : Locals Float) → SameEnd s (save run_id env s).1
  unfolding save
  save-SameEnd s = elim (Option-cases (find? (has_id run_id) (env.before_save s.world).runs)) [
    | inl gone ↦
        rw (gone, save)
          record { has_bus = refl; is_cancelled = refl; no_error = refl; no_message = refl }
    | inr (row, found) ↦
        elim (Result-cases
          (persist_final_state env.uuid env.now run_id s.final_state (env.before_save s.world))) [
            | inl (w, done) ↦
                rw (found, save)
                  (rw done record {
                    has_bus = refl;
                    is_cancelled = refl;
                    no_error = refl;
                    no_message = refl;
                  })
            | inr (e, broken) ↦
                rw (found, save)
                  (rw broken record {
                    has_bus = refl;
                    is_cancelled = refl;
                    no_error = refl;
                    no_message = refl;
                  })
          ]
  ]

  announce_cancelled :
      (t : Locals Float)
      → t.is_cancelled ≡ some true
      → announce run_id env t ≡ (raised validation_error, t)
  unfolding announce publish
  announce_cancelled t e = ap (λ c. publish (snapshot run_id (final_status run_id env c) end) t) e

  Outcome-has_bus :
      {s : Locals Float} {l : Result (Unit {0}) × Locals Float}
      → Outcome run_id s l
      → l.1.has_bus ≡ s.has_bus
  Outcome-has_bus (undisturbed k) = k.has_bus
  Outcome-has_bus (noticed o r b c) = b

  -- Of an execution that begins, whose stream ends, unseen by a cancellation, and whose save succeeds:
  -- where the run's row is still there and running or cancelled at the final update, it becomes
  -- completed, without an error message, and the last event carries the final numbers.
  pub execute_evaluation_run_completes :
      (w : World Float) {run row : EvaluationRun Float} {agent : AgentConfig} {l s t : Locals Float}
      → Begins run_id env w run agent l
      → stream_loop run_id env.stream_error env.stream l ≡ (ok tt, s)
      → s.is_cancelled ≡ some false
      → save run_id env s ≡ (ok tt, t)
      → find? (has_id run_id) (env.before_terminal t.world).runs ≡ some row
      → is_finishable run_id row ≡ true
      → Ends run_id env
          (execute_evaluation_run run_id env w)
          (record row { status = RunStatus.completed; error_message = none; updated_at = env.now })
          (t.published ++ snapshot run_id RunStatus.completed end t ∷ [])
  unfolding stream_and_save save_and_announce finally_block
  execute_evaluation_run_completes w {l = l} {s = s} {t = t} b looped going saved found due =
      let loop = stream_loop run_id env.stream_error env.stream in
      let saved_end = subst (λ r. SameEnd s r.1) saved (save-SameEnd s) in
      rw
        (
          Begins-execute run_id env w b,
          then_ok loop (save_and_announce run_id env) {l = l} looped,
          then_ok (save run_id env) (announce run_id env) {l = s} saved,
        )
        (rw (saved_end.is_cancelled ∙ going, announce, publish)
          (rw
            (
              saved_end.is_cancelled ∙ going,
              finally_block,
              saved_end.no_error,
              saved_end.no_message,
            )
            record {
              returns = refl;
              row_found = commit_terminal_found run_id env.now _ _ _ found due;
              events_published = refl;
            }))

  -- Of an execution that begins, notices a cancellation, whose save succeeds and that holds the run's
  -- object then: the event that would tell of the cancellation is refused as invalid, and the last
  -- event says failed; where the run's row is still there and running or cancelled at the final
  -- update, it is cancelled, with the text of the validation error as its error message.
  pub execute_evaluation_run-cancelled :
      (w : World Float) {run row : EvaluationRun Float} {agent : AgentConfig} {l s t : Locals Float}
      {object : RunObject}
      → Begins run_id env w run agent l
      → stream_loop run_id env.stream_error env.stream l ≡ (ok tt, s)
      → s.is_cancelled ≡ some true
      → save run_id env s ≡ (ok tt, t)
      → t.run ≡ some object
      → find? (has_id run_id) (env.before_terminal t.world).runs ≡ some row
      → is_finishable run_id row ≡ true
      → Ends run_id env
          (execute_evaluation_run run_id env w)
          (record row {
            status = RunStatus.cancelled;
            error_message = some (text_of validation_error);
            updated_at = env.now;
          })
          (t.published ++ bare_event run_id RunStatus.failed error (some validation_error) t ∷ [])
  unfolding stream_and_save save_and_announce
  execute_evaluation_run-cancelled w {l = l} {s = s} {t = t} b looped cancelled saved known found
        due =
      let loop = stream_loop run_id env.stream_error env.stream in
      let saved_end = subst (λ r. SameEnd s r.1) saved (save-SameEnd s) in
      let outcome =
        subst (λ r. Outcome run_id l r) looped
          (stream_loop-Outcome run_id env.stream_error env.stream l) in
      rw
        (
          Begins-execute run_id env w b,
          then_ok loop (save_and_announce run_id env) {l = l} looped,
          then_ok (save run_id env) (announce run_id env) {l = s} saved,
          announce_cancelled t (saved_end.is_cancelled ∙ cancelled),
        )
        (raised-Ends run_id env validation_error true t known
          (saved_end.has_bus ∙ Outcome-has_bus outcome ∙ ap (λ u. u.has_bus) b.begins)
          (saved_end.is_cancelled ∙ cancelled) found due)
