-- ===== src/Lifecycle/Moves.antt =====
-- Statements of `_execute_evaluation_run_async` (src/backend/worker/tasks.py) that change the world by
-- transactions only.
use crucible.Base.{
  ℕ, ◌≡◌, ◌⊎◌, refl, true, false, List, [], ◌∷◌, Option, none, some, All, Floats, Bool-cases, inl,
  inr,
}
use crucible.Db.Run.{Exn}
use crucible.Db.Models.{World}
use crucible.Agents.Orchestrator.{Node}
use crucible.Agents.State.{Update}
use crucible.Worker.Result.{Result, ok, raised}
use crucible.Worker.Execution.{
  EvaluationEvent, Locals, Action, ◌>>◌, ◌>>=◌, publish, is_event_status, StreamItem, Environment,
}
use crucible.Worker.Stream.{publish_updates, stream_loop, poll, sees_cancelled, note_cancelled}
use crucible.Lifecycle.{Reach, here, next, is_enqueued}
use crucible.Lifecycle.Refines.{Step-is_enqueued}

module _ ⦃fl : Floats⦄ where
  open fl use {Float}

  pub Reach-trans : {u v w : World Float} → Reach u v → Reach v w → Reach u w
  Reach-trans r here = r
  Reach-trans r (next q st) = next (Reach-trans r q) st

  pub Reach-is_enqueued :
      (i : ℕ) {w v : World Float} → Reach w v → is_enqueued i w ≡ true → is_enqueued i v ≡ true
  Reach-is_enqueued i here q = q
  Reach-is_enqueued i (next r st) q = Step-is_enqueued i st (Reach-is_enqueued i r q)

  -- What other processes do between the execution's transactions are transactions, too.
  pub record IsShared (env : Environment Float) : Type 0 where
    pub after_claim : (w : World Float) → Reach w (env.after_claim w)
    pub stream : All (λ item. (w : World Float) → Reach w (item.others w)) env.stream
    pub before_save : (w : World Float) → Reach w (env.before_save w)
    pub before_terminal : (w : World Float) → Reach w (env.before_terminal w)

  -- the action moves the world by transactions
  abbrev pub Moves : Action Float (Unit {0}) → Type 0
  Moves m = (s : Locals Float) → Reach s.world (m s).1.world

  pub Result-cases : (r : Result (Unit {0})) → (r ≡ ok tt) ⊎ ((e : Exn) × (r ≡ raised e))
  Result-cases (ok tt) = inl refl
  Result-cases (raised e) = inr (e, refl)

  pub Moves-then : (m k : Action Float (Unit {0})) → Moves m → Moves k → Moves (m >> k)
  Moves-then m k hm hk s = elim (Result-cases (m s).0) [
    | inl e ↦ rw (e, ◌>>◌, ◌>>=◌) (Reach-trans (hm s) (hk (m s).1))
    | inr (x, e) ↦ rw (e, ◌>>◌, ◌>>=◌) (hm s)
  ]

  pub Moves-publish : (e : Locals Float → EvaluationEvent Float) → Moves (publish e)
  unfolding publish
  Moves-publish e s = elim (Bool-cases (is_event_status (e s).status)) [
    | inl valid ↦ rw (valid, publish) here
    | inr invalid ↦ rw (invalid, publish) here
  ]

  module _ (run_id : ℕ) where
    pub Moves-publish_updates :
        (us : List (Node × Update Float)) → Moves (publish_updates run_id us)
    unfolding publish_updates
    Moves-publish_updates [] = λ s. here
    Moves-publish_updates ((x, u) ∷ us) = λ s. Moves-publish_updates us _

    abbrev pub Others : StreamItem Float → Type 0
    Others item = (w : World Float) → Reach w (item.others w)

    pub Moves-poll : (item : StreamItem Float) → Others item → Moves (poll run_id item)
    unfolding poll
    Moves-poll item o s = elim (Bool-cases item.elapsed) [
      | inl due ↦ rw due (o s.world)
      | inr early ↦ rw early (o s.world)
    ]

    pub Moves-stream_loop :
        (stream_error : Option Exn) (items : List (StreamItem Float))
        → All Others items
        → Moves (stream_loop run_id stream_error items)
    unfolding stream_loop
    Moves-stream_loop none [] o = λ s. here
    Moves-stream_loop (some e) [] o = λ s. here
    Moves-stream_loop stream_error (item ∷ items) (o, os) =
        Moves-then (poll run_id item)
          (λ s. elim (sees_cancelled s.current_status) [
            | true ↦ (ok tt, note_cancelled run_id s)
            | false ↦
                (publish_updates run_id item.updates >> stream_loop run_id stream_error items) s
          ])
          (Moves-poll item o)
          (λ s. elim (Bool-cases (sees_cancelled s.current_status)) [
            | inl cancelled ↦ rw cancelled here
            | inr running ↦ rw running (
                Moves-then (publish_updates run_id item.updates)
                  (stream_loop run_id stream_error items) (Moves-publish_updates item.updates)
                  (Moves-stream_loop stream_error items os) s)
          ])
