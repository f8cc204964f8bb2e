-- ===== src/Worker/Tasks/Ends.antt =====
-- How an execution of `_execute_evaluation_run_async` (src/backend/worker/tasks.py) ends.
use crucible.Base.{
  ℕ, ◌≡◌, ◌∙◌, refl, true, false, List, [], ◌∷◌, Option, none, some, Bool-cases, inl, inr,
}
use crucible.Db.Run.{Exn}
use crucible.Agents.Orchestrator.{Node}
use crucible.Agents.State.{Update}
use crucible.Worker.Result.{Result, ok}
use crucible.Worker.Stream.{stream_loop, publish_updates, poll, sees_cancelled, note_cancelled}
use crucible.Worker.Execution.{Locals, StreamItem, Action, ◌>>◌, ◌>>=◌}

module _ {F : Type 0} where
  -- what the loop leaves alone until it sees a cancellation
  pub record SameRun (s s' : Locals F) : Type 0 where
    pub run : s'.run ≡ s.run
    pub has_bus : s'.has_bus ≡ s.has_bus
    pub is_cancelled : s'.is_cancelled ≡ s.is_cancelled

  SameRun-refl : (s : Locals F) → SameRun s s
  SameRun-refl s = record { run = refl; has_bus = refl; is_cancelled = refl }

  SameRun-trans : {s t u : Locals F} → SameRun s t → SameRun t u → SameRun s u
  SameRun-trans h k = record {
    run = k.run ∙ h.run;
    has_bus = k.has_bus ∙ h.has_bus;
    is_cancelled = k.is_cancelled ∙ h.is_cancelled;
  }

  module _ (run_id : ℕ) where
    publish_updates-SameRun :
        (us : List (Node × Update F)) (s : Locals F) → SameRun s (publish_updates run_id us s).1
    unfolding publish_updates
    publish_updates-SameRun [] s = SameRun-refl s
    publish_updates-SameRun ((x, u) ∷ us) s =
        SameRun-trans (record { run = refl; has_bus = refl; is_cancelled = refl })
          (publish_updates-SameRun us _)

    publish_updates-ok :
        (us : List (Node × Update F)) (s : Locals F) → (publish_updates run_id us s).0 ≡ ok tt
    unfolding publish_updates
    publish_updates-ok [] s = refl
    publish_updates-ok ((x, u) ∷ us) s = publish_updates-ok us _

    poll-SameRun : (item : StreamItem F) (s : Locals F) → SameRun s (poll run_id item s).1
    unfolding poll
    poll-SameRun item s = elim (Bool-cases item.elapsed) [
      | inl due ↦ rw due (record { run = refl; has_bus = refl; is_cancelled = refl })
      | inr early ↦ rw early (record { run = refl; has_bus = refl; is_cancelled = refl })
    ]

    -- The loop either leaves these variables alone, or it sees a cancellation.
    pub data Outcome (s : Locals F) (l : Result (Unit {0}) × Locals F) : Type 0 where
      undisturbed : SameRun s l.1 → Outcome s l
      noticed :
          l.0 ≡ ok tt
          → l.1.run ≡ s.run
          → l.1.has_bus ≡ s.has_bus
          → l.1.is_cancelled ≡ some true
          → Outcome s l

    Outcome-SameRun :
        {s t : Locals F} {l : Result (Unit {0}) × Locals F}
        → SameRun s t
        → Outcome t l
        → Outcome s l
    Outcome-SameRun h (undisturbed k) = undisturbed (SameRun-trans h k)
    Outcome-SameRun h (noticed o r b c) = noticed o (r ∙ h.run) (b ∙ h.has_bus) c

    poll-ok : (item : StreamItem F) (s : Locals F) → (poll run_id item s).0 ≡ ok tt
    unfolding poll
    poll-ok item s = refl

    after_ok :
        (m k : Action F (Unit {0})) (s : Locals F)
        → (m s).0 ≡ ok tt
        → SameRun s (m s).1
        → Outcome (m s).1 (k (m s).1)
        → Outcome s ((m >> k) s)
    after_ok m k s done same h = rw (done, ◌>>◌, ◌>>=◌) (Outcome-SameRun same h)

    pub stream_loop-Outcome :
        (stream_error : Option Exn) (items : List (StreamItem F)) (s : Locals F)
        → Outcome s (stream_loop run_id stream_error items s)
    unfolding stream_loop
    stream_loop-Outcome none [] s = undisturbed (SameRun-refl s)
    stream_loop-Outcome (some e) [] s = undisturbed (SameRun-refl s)
    stream_loop-Outcome stream_error (item ∷ items) s =
        after_ok (poll run_id item)
          (λ t. elim (sees_cancelled t.current_status) [
            | true ↦ (ok tt, note_cancelled run_id t)
            | false ↦
                (publish_updates run_id item.updates >> stream_loop run_id stream_error items) t
          ])
          s (poll-ok item s) (poll-SameRun item s)
          (let t = (poll run_id item s).1 in
            elim (Bool-cases (sees_cancelled t.current_status)) [
              | inl seen ↦ rw seen (noticed refl refl refl refl)
              | inr going ↦ rw going (
                  after_ok (publish_updates run_id item.updates)
                    (stream_loop run_id stream_error items) t (publish_updates-ok item.updates t)
                    (publish_updates-SameRun item.updates t)
                    (stream_loop-Outcome stream_error items _))
            ])
