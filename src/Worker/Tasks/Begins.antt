-- ===== src/Worker/Tasks/Begins.antt =====
-- src/backend/worker/tasks.py: how an execution of `_execute_evaluation_run_async` begins, and what its
-- handler and its `finally` block do.
use crucible.Base.{
  ℕ, ◌≡◌, refl, ap, Bool, true, false, List, [], ◌∷◌, ◌++◌, Option, none, some, arith, Floats,
  find?, ◌==◌, if◌then◌else◌,
}
use crucible.Db.Run.{EvaluationRun, RunStatus, ErrorMessage, Exn, text_of}
use crucible.Db.Models.{World, AgentConfig}
use crucible.Db.Table.{rowcount, find?-update, rowcount_found}
use crucible.Api.Evaluation.{has_id}
use crucible.Worker.Result.{ok, raised}
use crucible.Worker.Claim.{claim, record_task_id, commit_terminal, is_finishable}
use crucible.Worker.Execution.{
  start, error, EvaluationEvent, RunObject, Locals, Environment, ready, publish, Action, ◌>>◌,
}
use crucible.Worker.Tasks.{
  Finished, initial_state, locals, bare_event, stream_and_save, start_stream, try_block,
  except_block, finally_block, handle, run_claimed, execute_evaluation_run,
}

module _ {F : Type 0} where
  pub then_ok : (m k : Action F (Unit {0})) {l s : Locals F} → m l ≡ (ok tt, s) → (m >> k) l ≡ k s
  then_ok m k done = ap (λ r. elim r.0 [ ok _ ↦ k r.1 | raised e ↦ (raised e, r.1) ]) done

  pub then_raised :
      (m k : Action F (Unit {0})) {l s : Locals F} {e : Exn}
      → m l ≡ (raised e, s)
      → (m >> k) l ≡ (raised e, s)
  then_raised m k broken = ap (λ r. elim r.0 [ ok _ ↦ k r.1 | raised e ↦ (raised e, r.1) ]) broken

module _ {F : Type 0} (run_id now : ℕ) where
  pub commit_terminal_found :
      (status : RunStatus) (message : Option ErrorMessage) (w : World F) {row : EvaluationRun F}
      → find? (has_id run_id) w.runs ≡ some row
      → is_finishable run_id row ≡ true
      → find? (has_id run_id) (commit_terminal run_id now status message w).runs
        ≡ some (record row { status = status; error_message = message; updated_at = now })
  unfolding commit_terminal
  commit_terminal_found status message w found due =
      let hit = rowcount_found (has_id run_id) (is_finishable run_id) w.runs found due in
      let some_row : (rowcount (is_finishable run_id) w.runs == 0) ≡ false = ground (arith, hit) in
      rw some_row
        (find?-update (has_id run_id) (is_finishable run_id) _ w.runs (λ y. refl) found due)

module _ ⦃fl : Floats⦄ (run_id : ℕ) (env : Environment fl.Float) where
  open fl use {Float}

  -- the local variables where the loop begins
  abbrev pub streaming : EvaluationRun Float → AgentConfig → World Float → Locals Float
  streaming run agent w =
      let s = locals w (initial_state run agent) in
      record s {
        has_bus = true;
        published = bare_event run_id RunStatus.running start none s ∷ [];
        seq_num = 2;
        current_status = some RunStatus.running;
        is_cancelled = some false;
      }

  -- The worker has claimed the run, the row and its configuration are found, and the bus and the graph are built.
  pub record Begins (w : World Float) (run : EvaluationRun Float) (agent : AgentConfig)
      (l : Locals Float) : Type 0 where
    pub known : EvaluationRun Float
    pub claimed : World Float
    pub row : find? (has_id run_id) w.runs ≡ some known
    pub claims : claim run_id env.now w ≡ some claimed
    pub found : find? (has_id run_id) (env.after_claim claimed).runs ≡ some run
    pub configured :
        find? (λ a. a.id == run.agent_config_id) (env.after_claim claimed).agent_configs
        ≡ some agent
    pub is_ready : env.setup ≡ ready
    pub begins :
        l
        ≡ streaming run agent (record_task_id run_id env.now env.task_id (env.after_claim claimed))

  pub Begins-execute :
      (w : World Float) {run : EvaluationRun Float} {agent : AgentConfig} {l : Locals Float}
      → Begins w run agent l
      → execute_evaluation_run run_id env w
        ≡ finally_block run_id env (handle run_id env (stream_and_save run_id env l))
  unfolding execute_evaluation_run
  Begins-execute w b =
      rw (b.row, execute_evaluation_run)
        (rw b.claims rw (b.found, run_claimed)
          (rw b.configured (rw (b.begins, b.is_ready, try_block, start_stream) refl)))

  -- An execution ends like this.
  pub record Ends (end : Finished Float) (row : EvaluationRun Float)
      (events : List (EvaluationEvent Float)) : Type 0 where
    pub returns : end.result ≡ ok tt
    pub row_found : find? (has_id run_id) end.world.runs ≡ some row
    pub events_published : end.published ≡ events

  -- What the handler and the `finally` block do with an exception.
  pub raised-Ends :
      (e : Exn) (c : Bool) (s : Locals Float) {run : RunObject} {row : EvaluationRun Float}
      → s.run ≡ some run
      → s.has_bus ≡ true
      → s.is_cancelled ≡ some c
      → find? (has_id run_id) (env.before_terminal s.world).runs ≡ some row
      → is_finishable run_id row ≡ true
      → Ends
          (finally_block run_id env (handle run_id env (raised e, s)))
          (record row {
            status = if c then RunStatus.cancelled else RunStatus.failed;
            error_message = some (text_of e);
            updated_at = env.now;
          })
          (s.published ++ bare_event run_id RunStatus.failed error (some e) s ∷ [])
  unfolding finally_block except_block publish
  raised-Ends e c s started bus going found due =
      rw (started, except_block, bus, publish)
        (rw (going, finally_block)
          record {
            returns = refl;
            row_found = commit_terminal_found run_id env.now _ _ _ found due;
            events_published = refl;
          })
