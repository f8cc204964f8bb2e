-- ===== src/Lifecycle/Executes.antt =====
-- `_execute_evaluation_run_async` of src/backend/worker/tasks.py makes only the transactions of
-- `Lifecycle.Step`.
use crucible.Base.{
  ℕ, ◌≡◌, ◌⊎◌, refl, Bool, true, Option, none, some, arith, ◌==◌, find?, Floats, Bool-cases,
  Option-cases, inl, inr,
}
use crucible.Db.Run.{Exn, is_terminal}
use crucible.Db.Models.{World}
use crucible.Agents.State.{EvaluationState}
use crucible.Api.Evaluation.{has_id}
use crucible.Worker.Result.{Result, ok, raised}
use crucible.Worker.Claim.{claim, record_task_id}
use crucible.Worker.Persist.{persist_final_state}
use crucible.Worker.Execution.{
  Locals, RunObject, publish, Environment, Setup, ready, bus_failed, graph_failed, end,
}
use crucible.Worker.Stream.{stream_loop, snapshot}
use crucible.Worker.Tasks.{
  locals, initial_state, final_status, set_up, save, announce, save_and_announce, stream_and_save,
  start_stream, try_block, except_block, handle, finally_block, terminal_status, run_claimed,
  execute_evaluation_run,
}
use crucible.Lifecycle.{Step, Reach, here, next, is_enqueued}
use crucible.Lifecycle.Moves.{
  Reach-trans, Reach-is_enqueued, IsShared, Moves, Moves-then, Moves-publish, Moves-stream_loop,
}

module _ ⦃fl : Floats⦄ where
  open fl use {Float}

  module _ (run_id : ℕ) (env : Environment Float) (shared : IsShared env) where
    Moves-set_up : (x : Setup) → Moves (set_up run_id env x)
    unfolding set_up
    Moves-set_up ready = λ s. here
    Moves-set_up (bus_failed e) = λ s. here
    Moves-set_up (graph_failed e) = λ s. here

    Moves-save : Moves (save run_id env)
    unfolding save
    Moves-save s =
        let w = env.before_save s.world in
        let r = shared.before_save s.world in
        elim (Option-cases (find? (has_id run_id) w.runs)) [
          | inl gone ↦ rw (gone, save) r
          | inr (row, e) ↦
              rw (e, save)
                (elim (persisted s.final_state w) [
                  | inl (v, p) ↦
                      rw p (next r (Step.persist env.uuid env.now run_id s.final_state p))
                  | inr (x, p) ↦ rw p r
                ])
        ]
      where
        persisted :
            (f : EvaluationState Float) (w : World Float)
            → ((v : World Float) × (persist_final_state env.uuid env.now run_id f w ≡ ok v))
              ⊎ ((x : Exn) × (persist_final_state env.uuid env.now run_id f w ≡ raised x))
        persisted f w = cases (persist_final_state env.uuid env.now run_id f w)
          where
            cases :
                (r : Result (World Float))
                → ((v : World Float) × (r ≡ ok v)) ⊎ ((x : Exn) × (r ≡ raised x))
            cases (ok v) = inl (v, refl)
            cases (raised x) = inr (x, refl)

    Moves-announce : Moves (announce run_id env)
    unfolding announce
    Moves-announce s =
        Moves-publish (snapshot run_id (final_status run_id env s.is_cancelled) end) s

    Moves-try_block : Moves (try_block run_id env)
    unfolding try_block start_stream stream_and_save save_and_announce
    Moves-try_block =
        Moves-then (set_up run_id env env.setup) (start_stream run_id env) (Moves-set_up env.setup)
          (λ s.
            Moves-then (stream_loop run_id env.stream_error env.stream)
              (save_and_announce run_id env)
              (Moves-stream_loop run_id env.stream_error env.stream shared.stream)
              (Moves-then (save run_id env) (announce run_id env) Moves-save Moves-announce) _)

    except_block-world :
        (e : Exn) (s : Locals Float) → (except_block run_id env e s).1.world ≡ s.world
    unfolding except_block publish
    except_block-world e s = elim (Option-cases s.run) [
      | inl gone ↦ rw (gone, except_block) refl
      | inr (r, q) ↦ elim (Bool-cases s.has_bus) [
        | inl bus ↦ rw (q, except_block) (rw bus refl)
        | inr no_bus ↦ rw (q, except_block) (rw no_bus refl)
      ]
    ]

    handle-world :
        (r : Result (Unit {0}) × Locals Float) → (handle run_id env r).1.world ≡ r.1.world
    handle-world (ok _, s) = refl
    handle-world (raised e, s) = except_block-world e s

    terminal_status-terminal :
        (c : Bool) (r : Option RunObject) → is_terminal (terminal_status run_id env c r) ≡ true
    terminal_status-terminal c none = ground arith
    terminal_status-terminal c (some r) = ground arith

    Reach-finally_block :
        (r : Result (Unit {0}) × Locals Float)
        → is_enqueued run_id r.1.world ≡ true
        → Reach r.1.world (finally_block run_id env r).world
    unfolding finally_block
    Reach-finally_block (r, s) q =
        let m = shared.before_terminal s.world in
        elim (Option-cases s.is_cancelled) [
          | inl unbound ↦ rw (unbound, finally_block) m
          | inr (c, e) ↦
              rw (e, finally_block)
                (next m (
                  Step.finish run_id env.now _ _ (Reach-is_enqueued run_id m q)
                    (terminal_status-terminal c s.run)))
        ]

    Reach-tried :
        (s : Locals Float)
        → is_enqueued run_id s.world ≡ true
        → Reach s.world
            (finally_block run_id env (handle run_id env (try_block run_id env s))).world
    Reach-tried s q =
        let t = try_block run_id env s in
        let m : Reach s.world (handle run_id env t).1.world =
          rw (handle-world t) (Moves-try_block s) in
        Reach-trans m (Reach-finally_block (handle run_id env t) (Reach-is_enqueued run_id m q))

    Reach-run_claimed :
        (w : World Float) → is_enqueued run_id w ≡ true → Reach w (run_claimed run_id env w).world
    unfolding run_claimed
    Reach-run_claimed w q = elim (Option-cases (find? (has_id run_id) w.runs)) [
      | inl gone ↦ rw (gone, run_claimed) here
      | inr (run, e) ↦
          let w' = record_task_id run_id env.now env.task_id w in
          let m : Reach w w' = next here (Step.note_task run_id env.now env.task_id) in
          elim (Option-cases (find? (λ a. a.id == run.agent_config_id) w'.agent_configs)) [
            | inl gone ↦ rw (e, run_claimed) (rw gone m)
            | inr (agent, a) ↦
                rw (e, run_claimed)
                  (rw a (
                    Reach-trans m (
                      Reach-tried (locals w' (initial_state run agent))
                        (Reach-is_enqueued run_id m q))))
          ]
    ]

    -- Where the run's task is in the broker and what other processes do are transactions, a whole
    -- execution of the task changes the tables by transactions only, however it ends: all that is
    -- kept by every transaction is kept by the execution.
    pub execute_evaluation_run-Reach :
        (w : World Float)
        → is_enqueued run_id w ≡ true
        → Reach w (execute_evaluation_run run_id env w).world
    unfolding execute_evaluation_run
    execute_evaluation_run-Reach w q = elim (Option-cases (find? (has_id run_id) w.runs)) [
      | inl gone ↦ rw (gone, execute_evaluation_run) here
      | inr (run, e) ↦ elim (Option-cases (claim run_id env.now w)) [
        | inl lost ↦ rw (e, execute_evaluation_run) (rw lost here)
        | inr (w', c) ↦
            let m : Reach w (env.after_claim w') =
              Reach-trans (next here (Step.take_claim run_id env.now q c))
                (shared.after_claim w') in
            rw (e, execute_evaluation_run)
              (rw c (
                Reach-trans m
                  (Reach-run_claimed (env.after_claim w') (Reach-is_enqueued run_id m q))))
      ]
    ]
