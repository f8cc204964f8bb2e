-- ===== src/Worker/Tasks.antt =====
-- src/backend/worker/tasks.py: `_execute_evaluation_run_async`, the body of the Celery task
-- `execute_evaluation_run`.
pub mod Keeps
pub mod Numbering
pub mod Ends
pub mod Begins
pub mod Terminal
use text.Mathlib.Text.{◌==◌ as str_eq}
use crucible.Base.{
  ℕ, String, Bool, true, false, List, [], Option, none, some, ◌==◌, Floats, if◌then◌else◌, find?,
}
use crucible.Db.Run.{
  EvaluationRun, RunStatus, Exn, attribute_error, unbound_local, ErrorMessage, text_of,
  DriftProfile,
}
use crucible.Db.Models.{World, AgentConfig, ConnectorType, rest_api, sdk, mcp}
use crucible.Agents.State.{EvaluationState}
use crucible.Api.Evaluation.{has_id}
use crucible.Worker.Result.{Result, ok, raised}
use crucible.Worker.Persist.{persist_final_state}
use crucible.Worker.Claim.{claim, record_task_id, commit_terminal}
use crucible.Worker.Stream.{stream_loop, snapshot}
use crucible.Worker.Execution.{
  Label, start, end, error, EvaluationEvent, RunObject, Locals, Setup, ready, bus_failed,
  graph_failed, Environment, Action, ◌>>◌, raise, modify, publish, next_seq,
}

-- How a call of the task ends: the world, the events handed to the bus, and what the coroutine
-- returns or raises.
pub record Finished (F : Type 0) : Type 0 where
  pub world : World F
  pub published : List (EvaluationEvent F)
  pub result : Result (Unit {0})

-- `text or default`
abbrev pub or_text : Option String → String → String
or_text none d = d
or_text (some t) d = if str_eq t "" then d else t

-- `connector_type.value`
abbrev pub value : ConnectorType → String
value rest_api = "rest_api"
value sdk = "sdk"
value mcp = "mcp"

abbrev pub idle : {F : Type 0} → World F → Finished F
idle w = record { world = w; published = []; result = ok tt }

abbrev pub crashed : {F : Type 0} → Exn → World F → Finished F
crashed e w = record { world = w; published = []; result = raised e }

module _ ⦃fl : Floats⦄ where
  open fl use {Float, decimal}

  abbrev pub initial_state : EvaluationRun Float → AgentConfig → EvaluationState Float
  initial_state run agent = record {
    run_id = run.id;
    tenant_id = run.tenant_id;
    agent_id = agent.id;
    config = record {
      max_budget_usd = some run.run_config.eval_budget_usd;
      scenario_count = none;
      target_endpoint_url = agent.endpoint_url;
      connector_type = some (value agent.connector_type);
      target_description = some (or_text agent.description "An AI agent");
      target_system_prompt = some (or_text agent.system_prompt "You are a helpful assistant");
    };
    total_cost_usd = decimal 0 0;
    turn_count = 0;
    scenarios = [];
    traces = [];
    judgments = [];
    evolution_suggestions = [];
    drift_profile = some DriftProfile.empty;
    errors = [];
  }

  abbrev pub locals : World Float → EvaluationState Float → Locals Float
  locals w state = record {
    world = w;
    run = some (record { has_fatal_error = false; error_message = none });
    has_bus = false;
    final_state = state;
    seq_num = 1;
    current_status = none;
    is_cancelled = none;
    published = [];
  }

  -- an event that leaves the snapshot fields at their defaults
  abbrev pub bare_event : ℕ → RunStatus → Label → Option Exn → Locals Float → EvaluationEvent Float
  bare_event run_id status label e s = record {
    seq_num = s.seq_num;
    run_id = run_id;
    status = status;
    current_node = label;
    turn_count = 0;
    total_cost_usd = decimal 0 0;
    passed_scenarios = 0;
    failed_scenarios = 0;
    error_message = e;
  }

  module _ (run_id : ℕ) (env : Environment Float) where
    -- `EventBus(RedisEventPublisher())`, then `build_evaluation_graph()`
    unfoldable pub set_up : Setup → Action Float (Unit {0})
    set_up (bus_failed e) = raise e
    set_up (graph_failed e) = modify (λ s. record s { has_bus = true }) >> raise e
    set_up ready = modify (λ s. record s { has_bus = true })

    -- the central save: the row is read again, and what the flushes raise goes on
    unfoldable pub save : Action Float (Unit {0})
    save s =
        let w = env.before_save s.world in
        elim (find? (has_id run_id) w.runs) [
          | none ↦ (ok tt, record s { world = w; run = none })
          | some row ↦
              let run : Option RunObject =
                some (record { has_fatal_error = false; error_message = row.error_message }) in
              elim (persist_final_state env.uuid env.now run_id s.final_state w) [
                | raised e ↦ (raised e, record s { world = w; run = run })
                | ok w' ↦ (ok tt, record s { world = w'; run = run })
              ]
        ]

    -- `"cancelled" if _cancelled else "completed"`
    abbrev pub final_status : Option Bool → RunStatus
    final_status (some true) = RunStatus.cancelled
    final_status _ = RunStatus.completed

    -- the final event
    unfoldable pub announce : Action Float (Unit {0})
    unfolding publish
    announce s = publish (snapshot run_id (final_status s.is_cancelled) end) s

    unfoldable pub save_and_announce : Action Float (Unit {0})
    unfolding save announce
    save_and_announce = save >> announce

    -- the `try` block from the loop on
    unfoldable pub stream_and_save : Action Float (Unit {0})
    unfolding stream_loop save_and_announce
    stream_and_save = stream_loop run_id env.stream_error env.stream >> save_and_announce

    -- the `try` block from the first event on
    unfoldable pub start_stream : Action Float (Unit {0})
    unfolding publish stream_and_save
    start_stream =
        publish (bare_event run_id RunStatus.running start none)
        >> next_seq
        >> modify
            (λ s. record s { current_status = some RunStatus.running; is_cancelled = some false })
        >> stream_and_save

    -- the `try` block
    unfoldable pub try_block : Action Float (Unit {0})
    unfolding set_up start_stream
    try_block = set_up env.setup >> start_stream

    -- the `except` block
    unfoldable pub except_block : Exn → Action Float (Unit {0})
    unfolding publish
    except_block e s = elim s.run [
      | none ↦ (raised attribute_error, s)
      | some r ↦
          let s' = record s {
            run = some (record { has_fatal_error = true; error_message = some (text_of e) });
          } in
          if s.has_bus
          then publish (bare_event run_id RunStatus.failed error (some e)) s'
          else (raised attribute_error, s')
    ]

    abbrev pub handle : Result (Unit {0}) × Locals Float → Result (Unit {0}) × Locals Float
    handle (ok _, s) = (ok tt, s)
    handle (raised e, s) = except_block e s

    -- `hasattr(run, "_fatal_error")`
    abbrev pub is_fatal : Option RunObject → Bool
    is_fatal none = false
    is_fatal (some r) = r.has_fatal_error

    abbrev pub message_of : Option RunObject → Option ErrorMessage
    message_of none = none
    message_of (some r) = if r.has_fatal_error then r.error_message else none

    abbrev pub terminal_status : Bool → Option RunObject → RunStatus
    terminal_status cancelled run =
        if cancelled
        then RunStatus.cancelled
        else if is_fatal run
        then RunStatus.failed
        else RunStatus.completed

    -- the `finally` block: it reads `_cancelled`, which may be unbound
    unfoldable pub finally_block : Result (Unit {0}) × Locals Float → Finished Float
    unfolding commit_terminal
    finally_block (r, s) =
        let w = env.before_terminal s.world in
        elim s.is_cancelled [
          | none ↦ record { world = w; published = s.published; result = raised unbound_local }
          | some c ↦ record {
            world = commit_terminal run_id env.now (terminal_status c s.run) (message_of s.run) w;
            published = s.published;
            result = r;
          }
        ]

    -- what follows the claim, from the world in which the row is read again
    unfoldable pub run_claimed : World Float → Finished Float
    unfolding record_task_id try_block except_block finally_block
    run_claimed w = elim (find? (has_id run_id) w.runs) [
      | none ↦ crashed attribute_error w
      | some run ↦
          let w' = record_task_id run_id env.now env.task_id w in
          elim (find? (λ a. a.id == run.agent_config_id) w.agent_configs) [
            | none ↦ crashed attribute_error w'
            | some agent ↦ finally_block (handle (try_block (locals w' (initial_state run agent))))
          ]
    ]

    unfoldable pub execute_evaluation_run : World Float → Finished Float
    unfolding claim run_claimed
    execute_evaluation_run w = elim (find? (has_id run_id) w.runs) [
      | none ↦ idle w
      | some _ ↦ elim (claim run_id env.now w) [
        | none ↦ idle w
        | some w' ↦ run_claimed (env.after_claim w')
      ]
    ]
