-- ===== src/Worker/Tasks/Keeps.antt =====
-- Statements of `_execute_evaluation_run_async` (src/backend/worker/tasks.py) that keep the numbering
-- of the published events.
use crucible.Base.{
  ℕ, zero, suc, ◌+◌, ◌≡◌, ◌∙◌, refl, ap, length-append, true, false, List, [], ◌∷◌, ◌++◌, map,
  Option, none, some, arith, length, Bool-cases, inl, inr,
}
use crucible.Agents.Orchestrator.{Node}
use crucible.Agents.State.{Update}
use crucible.Db.Run.{Exn}
use crucible.Worker.Result.{ok, Result-cases}
use crucible.Worker.Execution.{EvaluationEvent, Locals, Action, ◌>>◌, ◌>>=◌, StreamItem}
use crucible.Worker.Stream.{publish_updates, stream_loop, poll, sees_cancelled, note_cancelled}

-- 1, 2, …, n
abbrev pub up_to : ℕ → List ℕ
up_to zero = []
up_to (suc n) = up_to n ++ suc n ∷ []

module _ {F : Type 0} where
  -- the published events are numbered from 1 without a gap
  abbrev pub AreNumbered : List (EvaluationEvent F) → Type 0
  AreNumbered es = map (λ e. e.seq_num) es ≡ up_to (length es)

  -- and the counter stands behind the last one
  pub record IsNumbered (s : Locals F) : Type 0 where
    pub events : AreNumbered s.published
    pub counter : s.seq_num ≡ suc (length s.published)

  -- the action keeps this, also where it raises
  abbrev pub Keeps : {A : Type 0} → Action F A → Type 0
  Keeps m = (s : Locals F) → IsNumbered s → IsNumbered (m s).1

  pub Keeps-then :
      {A : Type 0} (m : Action F (Unit {0})) (k : Action F A) → Keeps m → Keeps k → Keeps (m >> k)
  Keeps-then m k hm hk s h = elim (Result-cases (m s).0) [
    | inl (a, e) ↦ rw (e, ◌>>◌, ◌>>=◌) (hk (m s).1 (hm s h))
    | inr (x, e) ↦ rw (e, ◌>>◌, ◌>>=◌) (hm s h)
  ]

  pub map-snoc :
      (es : List (EvaluationEvent F)) (v : EvaluationEvent F)
      → map (λ e. e.seq_num) (es ++ v ∷ []) ≡ map (λ e. e.seq_num) es ++ v.seq_num ∷ []
  map-snoc [] v = refl
  map-snoc (e ∷ es) v = ap (λ l. e.seq_num ∷ l) (map-snoc es v)

  pub length-snoc :
      (es : List (EvaluationEvent F)) (v : EvaluationEvent F)
      → length (es ++ v ∷ []) ≡ suc (length es)
  length-snoc es v = omega (arith, length-append es (v ∷ []))

  pub AreNumbered-snoc :
      (es : List (EvaluationEvent F)) (v : EvaluationEvent F)
      → AreNumbered es
      → v.seq_num ≡ suc (length es)
      → AreNumbered (es ++ v ∷ [])
  AreNumbered-snoc es v h e = rw (map-snoc es v, length-snoc es v, h, e) refl

  -- a published event that takes the counter's number, and the counter's next value
  pub IsNumbered-snoc :
      (s s' : Locals F) (v : EvaluationEvent F)
      → IsNumbered s
      → v.seq_num ≡ s.seq_num
      → s'.published ≡ s.published ++ v ∷ []
      → s'.seq_num ≡ s.seq_num + 1
      → IsNumbered s'
  IsNumbered-snoc s s' v n number shown next = record {
    events = rw shown (AreNumbered-snoc s.published v n.events (number ∙ n.counter));
    counter = rw (shown, length-snoc s.published v) (omega (arith, n.counter, next));
  }

  module _ (run_id : ℕ) where
    pub Keeps-publish_updates : (us : List (Node × Update F)) → Keeps (publish_updates run_id us)
    unfolding publish_updates
    Keeps-publish_updates [] = λ s n. n
    Keeps-publish_updates ((x, u) ∷ us) =
        λ s n. Keeps-publish_updates us _ (IsNumbered-snoc s _ _ n refl refl refl)

    Keeps-poll : (item : StreamItem F) → Keeps (poll run_id item)
    unfolding poll
    Keeps-poll item s n = elim (Bool-cases item.elapsed) [
      | inl due ↦ rw due (record { events = n.events; counter = n.counter })
      | inr early ↦ rw early (record { events = n.events; counter = n.counter })
    ]

    pub Keeps-stream_loop :
        (stream_error : Option Exn) (items : List (StreamItem F))
        → Keeps (stream_loop run_id stream_error items)
    unfolding stream_loop
    Keeps-stream_loop none [] = λ s n. n
    Keeps-stream_loop (some e) [] = λ s n. n
    Keeps-stream_loop stream_error (item ∷ items) =
        Keeps-then {A = Unit {0}} (poll run_id item)
          (λ s. elim (sees_cancelled s.current_status) [
            | true ↦ (ok tt, note_cancelled run_id s)
            | false ↦
                (publish_updates run_id item.updates >> stream_loop run_id stream_error items) s
          ])
          (Keeps-poll item)
          (λ s n. elim (Bool-cases (sees_cancelled s.current_status)) [
            | inl cancelled ↦ rw cancelled (record { events = n.events; counter = n.counter })
            | inr running ↦ rw running (
                Keeps-then (publish_updates run_id item.updates)
                  (stream_loop run_id stream_error items) (Keeps-publish_updates item.updates)
                  (Keeps-stream_loop stream_error items) s n)
          ])
