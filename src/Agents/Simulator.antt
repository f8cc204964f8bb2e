-- ===== src/Agents/Simulator.antt =====
-- src/backend/agents/simulator.py: a conversation with the target agent for each scenario. The
-- target, the store and the target's client are parameters. The scenarios of one call run
-- concurrently and share nothing but the client, so `asyncio.gather` gives the list of their
-- results; that a payload which is the scenario's own dictionary is written to is not modelled.
pub mod Counts
use Prim.Native.String.{◌++◌ as str_append}
use text.Mathlib.Text.{◌==◌ as str_eq}
use crucible.Base.{
  ℕ, zero, suc, String, Bool, true, false, ◌||◌, List, [], ◌∷◌, Option, none, some, length, Floats,
  if◌then◌else◌,
}
use crucible.Db.Run.{Exn, attribute_error, key_error, not_implemented}
use crucible.Db.Models.{ConnectorType, rest_api, sdk, mcp}
use crucible.Worker.Result.{Result, ok, raised}
use crucible.Agents.State.{
  GraphScenario, TraceMeta, GraphError, Config, EvaluationState, Update, no_update, get_or,
  invalid_connector, missing_endpoint, connector_failed, node_raised,
}
use crucible.Agents.Orchestrator.{is_empty}
use crucible.Agents.Retry.{retry_3}

-- What `send_interaction` gives: a dictionary with the text of its `status` (empty without one) or
-- with a status that is no text, or another value, or it raises.
pub data Reply : Type 0 where
  answered : (status : String) → Reply
  answered_bad_status other_value : Reply
  send_raised : Exn → Reply

pub data Entry : Type 0 where
  red_team environment : String → Entry
  target_agent : Reply → Entry
  error : Exn → Entry

-- `payload["message"] = text`
abbrev pub set_message : String → List (String × String) → List (String × String)
set_message text [] = ("message", text) ∷ []
set_message text ((k, v) ∷ d) =
    let rest = set_message text d in if str_eq k "message" then (k, text) ∷ d else (k, v) ∷ rest

abbrev pub feedback : String
feedback = "Environment feedback: Tool executed successfully."

-- `not text`
abbrev pub is_blank : Option String → Bool
is_blank none = true
is_blank (some t) = str_eq t ""

abbrev pub red_team_input : (title description : String) → String
red_team_input title description =
    str_append "Execute scenario: " (str_append title (str_append ". Instructions: " description))

module _ (lower : String → String) where
  -- `status_val in ["complete", "done", "success"]`
  abbrev pub is_complete : String → Bool
  is_complete status =
      let s = lower status in str_eq s "complete" || str_eq s "done" || str_eq s "success"

  module _ (send : (turn : ℕ) → List (String × String) → Reply) where
    -- the loop, with `left` turns after this one
    unfoldable pub turn_loop : (turn left : ℕ) → List (String × String) → List Entry
    turn_loop turn zero payload = elim (send turn payload) [
      | send_raised e ↦ error e ∷ []
      | answered_bad_status ↦ target_agent answered_bad_status ∷ error attribute_error ∷ []
      | r ↦ target_agent r ∷ []
    ]
    turn_loop turn (suc left) payload =
        let go_on =
          environment feedback ∷ turn_loop (suc turn) left (set_message feedback payload) in
        elim (send turn payload) [
          | send_raised e ↦ error e ∷ []
          | answered_bad_status ↦ target_agent answered_bad_status ∷ error attribute_error ∷ []
          | answered status ↦
              if is_complete status
              then target_agent (answered status) ∷ []
              else target_agent (answered status) ∷ go_on
          | other_value ↦ target_agent other_value ∷ go_on
        ]

    unfoldable pub interaction_log :
        (title description : String) → List (String × String) → List Entry
    unfolding turn_loop
    interaction_log title description input_payload =
        let text = red_team_input title description in
        red_team text ∷ turn_loop 0 4 (set_message text input_payload)

-- What the node works with. Calls are told apart by the scenario's position and the turn or the
-- attempt.
pub record Simulation : Type 0 where
  pub lower : String → String
  pub str : Exn → String
  pub uuid : ℕ → ℕ
  pub send : (scenario turn : ℕ) → List (String × String) → Reply
  pub upload_trace :
      (scenario attempt : ℕ) → (trace_id scenario_id : ℕ) → List Entry → Result String
  pub connect : String → Option Exn

module _ (sim : Simulation) where
  open sim use {lower, str, uuid, send, upload_trace, connect}

  -- a missing title or description raises a `KeyError`
  unfoldable pub simulate_scenario : (n : ℕ) → GraphScenario → Result TraceMeta
  unfolding interaction_log retry_3
  simulate_scenario n scenario = elim scenario.title [
    | none ↦ raised key_error
    | some title ↦ elim scenario.description [
      | none ↦ raised key_error
      | some description ↦
          let log =
            interaction_log lower (send n) title description (get_or scenario.input_payload []) in
          elim (retry_3 (λ e. e) (λ k. upload_trace n k (uuid n) scenario.id log)) [
            | raised e ↦ ok (record {
              trace_id = uuid n;
              scenario_id = scenario.id;
              storage_key = none;
              turn_count = none;
              error_message = some (str_append "Trace upload failed: " (str e));
            })
            | ok s3_key ↦ ok (record {
              trace_id = uuid n;
              scenario_id = scenario.id;
              storage_key = some s3_key;
              turn_count = some (length log);
              error_message = none;
            })
          ]
    ]
  ]

  -- the loop over the results of `asyncio.gather`; a result that is no exception has a trace id
  unfoldable pub gather : (n : ℕ) → List GraphScenario → List TraceMeta × List GraphError
  unfolding simulate_scenario
  gather n [] = ([], [])
  gather n (s ∷ ss) =
      let (traces, errors) = gather (suc n) ss in
      elim (simulate_scenario n s) [
        | raised e ↦ (traces, node_raised e ∷ errors)
        | ok trace ↦ (trace ∷ traces, errors)
      ]

-- `ConnectorType(connector_type_str) if connector_type_str else ConnectorType.REST_API`
unfoldable pub connector_type_of : Option String → Option ConnectorType
connector_type_of none = some rest_api
connector_type_of (some t) =
    if str_eq t "" || str_eq t "rest_api"
    then some rest_api
    else if str_eq t "sdk"
    then some sdk
    else if str_eq t "mcp"
    then some mcp
    else none

module _ ⦃fl : Floats⦄ (sim : Simulation) where
  open fl use {Float, decimal}
  open sim use {connect}

  -- the connector, or the error that the node returns
  unfoldable pub connector_error : Config Float → Option GraphError
  unfolding connector_type_of
  connector_error config = elim (connector_type_of config.connector_type) [
    | none ↦ some invalid_connector
    | some rest_api ↦
        if is_blank config.target_endpoint_url
        then some missing_endpoint
        else elim (connect (get_or config.target_endpoint_url "")) [
          | none ↦ none
          | some e ↦ some (connector_failed e)
        ]
    | some sdk ↦ some (connector_failed not_implemented)
    | some mcp ↦ some (connector_failed not_implemented)
  ]

  abbrev errors_of : List GraphError → Option (List GraphError)
  errors_of [] = none
  errors_of (e ∷ es) = some (e ∷ es)

  -- The test for missing ids never holds: both are texts of UUIDs.
  unfoldable pub simulate_environment_node : EvaluationState Float → Update Float
  unfolding connector_error gather
  simulate_environment_node state =
      if is_empty state.scenarios then no_update else elim (connector_error state.config) [
        | some e ↦ record no_update { errors = some (e ∷ []) }
        | none ↦
            let (traces, errors) = gather sim 0 state.scenarios in
            record no_update {
              traces = some traces;
              total_cost_usd = some (decimal 0 0);
              turn_count = some (length state.scenarios);
              errors = errors_of errors;
            }
      ]
