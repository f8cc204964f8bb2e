-- ===== src/Worker/Stream.antt =====
-- src/backend/worker/tasks.py: the loop of `_execute_evaluation_run_async` over the graph's stream.
use crucible.Base.{
  ℕ, Bool, true, false, not, List, [], ◌∷◌, ◌++◌, Option, none, some, count, if◌then◌else◌, find?,
}
use crucible.Db.Run.{EvaluationRun, RunStatus, is_status, Exn}
use crucible.Agents.State.{Update, JudgmentData, dict_update, run_cancelled}
use crucible.Agents.Orchestrator.{Node}
use crucible.Api.Evaluation.{has_id}
use crucible.Worker.Result.{ok}
use crucible.Worker.Execution.{
  Label, at_node, EvaluationEvent, Locals, StreamItem, Action, ◌>>◌, pure, modify, raise_if,
  publish, next_seq,
}

-- `current_status == "cancelled"`
abbrev pub sees_cancelled : Option RunStatus → Bool
sees_cancelled none = false
sees_cancelled (some s) = is_status s RunStatus.cancelled

module _ {F : Type 0} where
  abbrev pub passed : List (JudgmentData F) → ℕ
  passed = count (λ j. j.passed)

  abbrev pub failed : List (JudgmentData F) → ℕ
  failed = count (λ j. not j.passed)

  -- the snapshot of the progress, and of the final event
  abbrev pub snapshot : ℕ → RunStatus → Label → Locals F → EvaluationEvent F
  snapshot run_id status label s = record {
    seq_num = s.seq_num;
    run_id = run_id;
    status = status;
    current_node = label;
    turn_count = s.final_state.turn_count;
    total_cost_usd = s.final_state.total_cost_usd;
    passed_scenarios = passed s.final_state.judgments;
    failed_scenarios = failed s.final_state.judgments;
    error_message = none;
  }

  abbrev pub status_of : Option (EvaluationRun F) → Option RunStatus
  status_of none = none
  status_of (some r) = some r.status

  module _ (run_id : ℕ) where
    -- the poll for a cancellation, after what others have committed
    unfoldable pub poll : StreamItem F → Action F (Unit {0})
    poll item = modify (λ s.
        let w = item.others s.world in
        if item.elapsed
        then record s { world = w; current_status = status_of (find? (has_id run_id) w.runs) }
        else record s { world = w })

    -- `for node_name, state_update in event.items()`
    unfoldable pub publish_updates : List (Node × Update F) → Action F (Unit {0})
    unfolding publish
    publish_updates [] = pure tt
    publish_updates ((n, u) ∷ us) =
        modify (λ s. record s { final_state = dict_update s.final_state u })
        >> publish (snapshot run_id RunStatus.running (at_node n))
        >> next_seq
        >> publish_updates us

    -- the branch that leaves the loop
    abbrev pub note_cancelled : Locals F → Locals F
    note_cancelled s =
        let f = s.final_state in
        record s {
          final_state = record f { errors = f.errors ++ run_cancelled ∷ [] };
          is_cancelled = some true;
        }

    -- `async for event in graph.astream(initial_state, stream_mode="updates")`
    unfoldable pub stream_loop : Option Exn → List (StreamItem F) → Action F (Unit {0})
    unfolding poll publish_updates
    stream_loop stream_error [] = raise_if stream_error
    stream_loop stream_error (item ∷ items) = poll item >> λ s.
        elim (sees_cancelled s.current_status) [
          | true ↦ (ok tt, note_cancelled s)
          | false ↦ (publish_updates item.updates >> stream_loop stream_error items) s
        ]
