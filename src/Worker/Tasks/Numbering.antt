-- ===== src/Worker/Tasks/Numbering.antt =====
-- The sequence numbers of the events that a worker publishes: src/backend/worker/tasks.py.
use crucible.Base.{
  ◌==◌, ℕ, ◌≡◌, refl, find?, Option, none, Floats, Bool-cases, Option-cases, inl, inr,
}
use crucible.Db.Run.{Exn, RunStatus}
use crucible.Worker.Result.{Result, ok, raised}
use crucible.Worker.Execution.{Locals, Action, ◌>>◌, ◌>>=◌, publish, is_event_status}
use crucible.Db.Models.{World}
use crucible.Api.Evaluation.{has_id}
use crucible.Worker.Claim.{claim, record_task_id}
use crucible.Worker.Persist.{persist_final_state}
use crucible.Worker.Execution.{
  RunObject, start, Environment, Setup, ready, bus_failed, graph_failed,
}
use crucible.Worker.Stream.{stream_loop}
use crucible.Worker.Tasks.{
  locals, initial_state, set_up, save, announce, final_status, bare_event, save_and_announce,
  stream_and_save, start_stream, try_block, except_block, handle, finally_block, run_claimed,
  execute_evaluation_run,
}
use crucible.Worker.Tasks.Keeps.{
  AreNumbered, IsNumbered, Keeps, AreNumbered-snoc, IsNumbered-snoc, Keeps-stream_loop,
}
use crucible.Worker.Result.{Result-cases}

module _ ⦃fl : Floats⦄ (run_id : ℕ) (env : Environment fl.Float) where
  open fl use {Float}

  Keeps-set_up : (x : Setup) → Keeps (set_up run_id env x)
  unfolding set_up
  Keeps-set_up ready = λ s n. record { events = n.events; counter = n.counter }
  Keeps-set_up (bus_failed e) = λ s n. n
  Keeps-set_up (graph_failed e) = λ s n. record { events = n.events; counter = n.counter }

  saved :
      (s : Locals Float)
      → IsNumbered s
      → (w : World Float) (r : Option RunObject) → IsNumbered (record s { world = w; run = r })
  saved s n w r = record { events = n.events; counter = n.counter }

  Keeps-save : Keeps (save run_id env)
  unfolding save
  Keeps-save s n =
      let w = env.before_save s.world in
      elim (Option-cases (find? (has_id run_id) w.runs)) [
        | inl gone ↦ rw (gone, save) (saved s n w none)
        | inr (row, e) ↦
            rw (e, save)
              (elim (Result-cases (persist_final_state env.uuid env.now run_id s.final_state w)) [
                | inl (w', p) ↦ rw p (saved s n w' _)
                | inr (x, p) ↦ rw p (saved s n w _)
              ])
      ]

  -- what is known of the end of the `try` block
  abbrev Post : Result (Unit {0}) × Locals Float → Type 0
  Post (ok _, s) = AreNumbered s.published
  Post (raised e, s) = IsNumbered s

  Post-then :
      (m k : Action Float (Unit {0}))
      → Keeps m
      → ((s : Locals Float) → IsNumbered s → Post (k s))
      → (s : Locals Float) → IsNumbered s
      → Post ((m >> k) s)
  Post-then m k hm hk s n = elim (Result-cases (m s).0) [
    | inl (a, e) ↦ rw (e, ◌>>◌, ◌>>=◌) (hk (m s).1 (hm s n))
    | inr (x, e) ↦ rw (e, ◌>>◌, ◌>>=◌) (hm s n)
  ]

  Post-announce : (s : Locals Float) → IsNumbered s → Post (announce run_id env s)
  unfolding announce publish
  Post-announce s n = elim (Bool-cases (is_event_status (final_status run_id env s.is_cancelled))) [
    | inl valid ↦
        rw (valid, Post, announce, publish) (AreNumbered-snoc s.published _ n.events n.counter)
    | inr invalid ↦ rw (invalid, Post, announce, publish) n
  ]

  Post-stream : (s : Locals Float) → IsNumbered s → Post (stream_and_save run_id env s)
  unfolding stream_and_save save_and_announce
  Post-stream =
      Post-then (stream_loop run_id env.stream_error env.stream) (save_and_announce run_id env)
        (Keeps-stream_loop run_id env.stream_error env.stream)
        (Post-then (save run_id env) (announce run_id env) Keeps-save Post-announce)

  Post-start : (s : Locals Float) → IsNumbered s → Post (start_stream run_id env s)
  unfolding start_stream
  Post-start s n =
      Post-stream _
        (IsNumbered-snoc s _ (bare_event run_id RunStatus.running start none s) n refl refl refl)

  Post-try_block : (s : Locals Float) → IsNumbered s → Post (try_block run_id env s)
  unfolding try_block
  Post-try_block =
      Post-then (set_up run_id env env.setup) (start_stream run_id env) (Keeps-set_up env.setup)
        Post-start

  Post-except_block :
      (e : Exn) (s : Locals Float)
      → IsNumbered s
      → AreNumbered (except_block run_id env e s).1.published
  unfolding except_block publish
  Post-except_block e s n = elim (Option-cases s.run) [
    | inl gone ↦ rw (gone, except_block) n.events
    | inr (r, q) ↦ elim (Bool-cases s.has_bus) [
      | inl bus ↦ rw (q, except_block) (rw bus (AreNumbered-snoc s.published _ n.events n.counter))
      | inr no_bus ↦ rw (q, except_block) (rw no_bus n.events)
    ]
  ]

  Post-handle :
      (r : Result (Unit {0}) × Locals Float)
      → Post r
      → AreNumbered (handle run_id env r).1.published
  Post-handle (ok _, s) h = h
  Post-handle (raised e, s) h = Post-except_block e s h

  finally_block-published :
      (r : Result (Unit {0}) × Locals Float)
      → (finally_block run_id env r).published ≡ r.1.published
  unfolding finally_block
  finally_block-published (r, s) = elim (Option-cases s.is_cancelled) [
    | inl unbound ↦ rw (unbound, finally_block) refl
    | inr (c, e) ↦ rw (e, finally_block) refl
  ]

  run_claimed-AreNumbered : (w : World Float) → AreNumbered (run_claimed run_id env w).published
  unfolding run_claimed
  run_claimed-AreNumbered w = elim (Option-cases (find? (has_id run_id) w.runs)) [
    | inl gone ↦ rw (gone, run_claimed) refl
    | inr (run, e) ↦
        let w' = record_task_id run_id env.now env.task_id w in
        elim (Option-cases (find? (λ a. a.id == run.agent_config_id) w'.agent_configs)) [
          | inl gone ↦ rw (e, run_claimed) (rw gone refl)
          | inr (agent, q) ↦
              let l = locals w' (initial_state run agent) in
              rw (e, run_claimed)
                (rw q (
                  rw (finally_block-published (handle run_id env (try_block run_id env l))) (
                    Post-handle (try_block run_id env l)
                      (Post-try_block l (record { events = refl; counter = refl })))))
        ]
  ]

  -- Whatever the graph, the libraries and the other processes do, and however the task ends, the
  -- events that one execution publishes are numbered 1, 2, 3 and so on, without a gap.
  pub execute_evaluation_run-AreNumbered :
      (w : World Float) → AreNumbered (execute_evaluation_run run_id env w).published
  unfolding execute_evaluation_run
  execute_evaluation_run-AreNumbered w = elim (Option-cases (find? (has_id run_id) w.runs)) [
    | inl gone ↦ rw (gone, execute_evaluation_run) refl
    | inr (run, e) ↦ elim (Option-cases (claim run_id env.now w)) [
      | inl lost ↦ rw (e, execute_evaluation_run) (rw lost refl)
      | inr (w', q) ↦
          rw (e, execute_evaluation_run) (rw q (run_claimed-AreNumbered (env.after_claim w')))
    ]
  ]
