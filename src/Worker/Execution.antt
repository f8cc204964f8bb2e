-- ===== src/Worker/Execution.antt =====
-- src/backend/worker/tasks.py: what `_execute_evaluation_run_async` works on, and the actions on it.
-- The function's local variables are a record, and a Python statement is an action on it that
-- returns or raises; what was assigned before a raise stays assigned.
use crucible.Base.{ℕ, ◌+◌, Bool, not, List, [], ◌∷◌, ◌++◌, Option, none, some, if◌then◌else◌}
use crucible.Db.Run.{RunStatus, is_status, Exn, validation_error, ErrorMessage}
use crucible.Db.Models.{World}
use crucible.Agents.State.{EvaluationState, Update}
use crucible.Agents.Orchestrator.{Node}
use crucible.Worker.Result.{Result, ok, raised}

-- `current_node` of an event
pub data Label : Type 0 where
  start end error : Label
  at_node : Node → Label

-- src/backend/schemas/events.py, without the time stamp
pub record EvaluationEvent (F : Type 0) : Type 0 where
  pub seq_num : ℕ
  pub run_id : ℕ
  pub status : RunStatus
  pub current_node : Label
  pub turn_count : ℕ
  pub total_cost_usd : F
  pub passed_scenarios : ℕ
  pub failed_scenarios : ℕ
  pub error_message : Option Exn

-- `status: Literal["pending", "running", "completed", "failed"]`: pydantic refuses any other when
-- the event is built.
abbrev pub is_event_status : RunStatus → Bool
is_event_status s = not (is_status s RunStatus.cancelled)

abbrev pub evaluation_event_v1 : {F : Type 0} → EvaluationEvent F → Result (EvaluationEvent F)
evaluation_event_v1 e = if is_event_status e.status then ok e else raised validation_error

-- The variable `run`: the row's object with the attributes that the handler sets on it.
pub record RunObject : Type 0 where
  pub has_fatal_error : Bool
  pub error_message : Option ErrorMessage

-- The local variables. `has_bus` tells whether `event_bus` is bound to a bus, `is_cancelled` is
-- `none` until `_cancelled` is first assigned, and `run` is `none` where the row was not found.
pub record Locals (F : Type 0) : Type 0 where
  pub world : World F
  pub run : Option RunObject
  pub has_bus : Bool
  pub final_state : EvaluationState F
  pub seq_num : ℕ
  pub current_status : Option RunStatus
  pub is_cancelled : Option Bool
  -- the events handed to the bus, in order
  pub published : List (EvaluationEvent F)

-- One event of the graph's stream. Before the loop sees it, other processes commit `others`;
-- `elapsed` is the test that more than five seconds have passed since the last poll.
pub record StreamItem (F : Type 0) : Type 0 where
  pub others : World F → World F
  pub elapsed : Bool
  pub updates : List (Node × Update F)

-- How `EventBus(RedisEventPublisher())` and `build_evaluation_graph()` went.
pub data Setup : Type 0 where
  ready : Setup
  bus_failed graph_failed : Exn → Setup

-- All that the execution meets: what other processes commit between its transactions, the stream of
-- the graph with the exception that may end it, and the values that the libraries give.
pub record Environment (F : Type 0) : Type 0 where
  pub task_id : Option ℕ
  pub now : ℕ
  pub uuid : ℕ → ℕ
  pub after_claim : World F → World F
  pub setup : Setup
  pub stream : List (StreamItem F)
  pub stream_error : Option Exn
  pub before_save : World F → World F
  pub before_terminal : World F → World F

-- A statement of the function.
abbrev pub Action : Type 0 → Type 0 → Type 0
Action F A = Locals F → Result A × Locals F

module _ {F : Type 0} where
  infixr 5 ◌>>=◌ ◌>>◌
  abbrev pub ◌>>=◌ : {A B : Type 0} → Action F A → (A → Action F B) → Action F B
  ◌>>=◌ m f s = let (r, s') = m s in elim r [ ok a ↦ f a s' | raised e ↦ (raised e, s') ]

  abbrev pub ◌>>◌ : {B : Type 0} → Action F (Unit {0}) → Action F B → Action F B
  m >> k = m >>= λ _. k

  abbrev pub pure : {A : Type 0} → A → Action F A
  pure a s = (ok a, s)

  abbrev pub raise : {A : Type 0} → Exn → Action F A
  raise e s = (raised e, s)

  abbrev pub modify : (Locals F → Locals F) → Action F (Unit {0})
  modify f s = (ok tt, f s)

  -- `raise` what a call of a library raised
  abbrev pub raise_if : Option Exn → Action F (Unit {0})
  raise_if none = pure tt
  raise_if (some e) = raise e

  -- `await event_bus.publish_evaluation_event(EvaluationEventV1(…))`: building the event may raise,
  -- and the bus itself swallows what its transport raises
  unfoldable pub publish : (Locals F → EvaluationEvent F) → Action F (Unit {0})
  publish e s = elim (evaluation_event_v1 (e s)) [
    | raised x ↦ (raised x, s)
    | ok v ↦ (ok tt, record s { published = s.published ++ v ∷ [] })
  ]

  -- `seq_num += 1`
  abbrev pub next_seq : Action F (Unit {0})
  next_seq = modify (λ s. record s { seq_num = s.seq_num + 1 })
