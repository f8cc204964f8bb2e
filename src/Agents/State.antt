-- ===== src/Agents/State.antt =====
-- src/backend/agents/state.py: the state of the evaluation graph, and the partial states that its
-- nodes return. A key that some node always sets is a field. A key that a reader asks for with a
-- default, and that may be absent, is an `Option`.
use crucible.Base.{ℕ, ◌+◌, String, Bool, List, Option, none, some, ◌++◌, Floats}
use crucible.Db.Run.{Exn, DriftProfile, Suggestion}

pub record GraphScenario : Type 0 where
  pub id : ℕ
  pub title : Option String
  pub description : Option String
  pub expected_outcome : Option String
  pub expected_behavior : Option String
  pub category : Option String
  pub input_payload : Option (List (String × String))

pub record TraceMeta : Type 0 where
  pub trace_id : ℕ
  pub scenario_id : ℕ
  pub storage_key : Option String
  pub turn_count : Option ℕ
  pub error_message : Option String

pub record JudgmentData (F : Type 0) : Type 0 where
  pub scenario_id : ℕ
  pub trace_key : Option String
  pub score : F
  pub overall_score : Option F
  pub reasoning : String
  pub passed : Bool

-- The texts that go into `errors`.
pub data GraphError : Type 0 where
  run_cancelled : GraphError
  generation_failed : Exn → GraphError
  missing_ids invalid_connector missing_endpoint : GraphError
  connector_failed : Exn → GraphError
  node_raised : Exn → GraphError
  scenario_not_found : (scenario_id : ℕ) → GraphError
  no_traces : GraphError
  trace_fetch_failed : (storage_key : Option String) → Exn → GraphError
  trace_embedding_failed : (trace_id : ℕ) → Exn → GraphError
  no_overlap : GraphError
  evolution_failed : Exn → GraphError

pub record Config (F : Type 0) : Type 0 where
  pub max_budget_usd : Option F
  pub scenario_count : Option ℕ
  pub target_endpoint_url : Option String
  pub connector_type : Option String
  pub target_description : Option String
  pub target_system_prompt : Option String

pub record EvaluationState (F : Type 0) : Type 0 where
  pub run_id : ℕ
  pub tenant_id : ℕ
  pub agent_id : ℕ
  pub config : Config F
  pub total_cost_usd : F
  pub turn_count : ℕ
  pub scenarios : List GraphScenario
  pub traces : List TraceMeta
  pub judgments : List (JudgmentData F)
  pub evolution_suggestions : List Suggestion
  pub drift_profile : Option (DriftProfile F)
  pub errors : List GraphError

-- The dictionary that a node returns.
pub record Update (F : Type 0) : Type 0 where
  pub total_cost_usd : Option F
  pub turn_count : Option ℕ
  pub scenarios : Option (List GraphScenario)
  pub traces : Option (List TraceMeta)
  pub judgments : Option (List (JudgmentData F))
  pub evolution_suggestions : Option (List Suggestion)
  pub drift_profile : Option (Option (DriftProfile F))
  pub errors : Option (List GraphError)

-- `{}`
abbrev pub no_update : {F : Type 0} → Update F
no_update = record {
  total_cost_usd = none;
  turn_count = none;
  scenarios = none;
  traces = none;
  judgments = none;
  evolution_suggestions = none;
  drift_profile = none;
  errors = none;
}

-- `update.get(key, default)`
abbrev pub get_or {ℓ} : {A : Type ℓ} → Option A → A → A
get_or none d = d
get_or (some a) d = a

-- `operator.add` on lists, where the update has the key
abbrev pub extend {ℓ} : {A : Type ℓ} → List A → Option (List A) → List A
extend xs none = xs
extend xs (some ys) = xs ++ ys

-- LangGraph merges an update by the annotations of the state's keys: `operator.add` for numbers and
-- lists, and the last value for `drift_profile`.
module _ ⦃fl : Floats⦄ where
  open fl use {Float, add}

  abbrev add_cost : Float → Option Float → Float
  add_cost c none = c
  add_cost c (some d) = add c d

  unfoldable pub reduce : EvaluationState Float → Update Float → EvaluationState Float
  reduce s u = record s {
    total_cost_usd = add_cost s.total_cost_usd u.total_cost_usd;
    turn_count = s.turn_count + get_or u.turn_count 0;
    scenarios = extend s.scenarios u.scenarios;
    traces = extend s.traces u.traces;
    judgments = extend s.judgments u.judgments;
    evolution_suggestions = extend s.evolution_suggestions u.evolution_suggestions;
    drift_profile = get_or u.drift_profile s.drift_profile;
    errors = extend s.errors u.errors;
  }

-- `final_state.update(state_update)` of the worker: each key that the update has is replaced.
unfoldable pub dict_update : {F : Type 0} → EvaluationState F → Update F → EvaluationState F
dict_update s u = record s {
  total_cost_usd = get_or u.total_cost_usd s.total_cost_usd;
  turn_count = get_or u.turn_count s.turn_count;
  scenarios = get_or u.scenarios s.scenarios;
  traces = get_or u.traces s.traces;
  judgments = get_or u.judgments s.judgments;
  evolution_suggestions = get_or u.evolution_suggestions s.evolution_suggestions;
  drift_profile = get_or u.drift_profile s.drift_profile;
  errors = get_or u.errors s.errors;
}
