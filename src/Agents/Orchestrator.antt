-- ===== src/Agents/Orchestrator.antt =====
-- src/backend/agents/orchestrator.py: the routing functions and the compiled graph. A node is a
-- function that returns an update or raises. LangGraph streams one update for each node that ran,
-- and stops with an error after its recursion limit of steps.
pub mod Routing
use crucible.Base.{
  ℕ, zero, suc, Bool, true, false, ◌||◌, List, [], ◌∷◌, Option, none, some, Floats, if◌then◌else◌,
}
use crucible.Db.Run.{Exn}
use crucible.Agents.State.{EvaluationState, Update, reduce, get_or}

pub data Node : Type 0 where
  generate simulate judge analyze evolution : Node

pub data NodeResult (F : Type 0) : Type 0 where
  returned : Update F → NodeResult F
  raised : Exn → NodeResult F

-- how a run of the graph ends
pub data Stop : Type 0 where
  reached_end recursion_limit : Stop
  node_failed : Exn → Stop

pub record GraphRun (F : Type 0) : Type 0 where
  pub updates : List (Node × Update F)
  pub final : EvaluationState F
  pub stop : Stop

-- `not xs`
abbrev pub is_empty {ℓ} : {A : Type ℓ} → List A → Bool
is_empty [] = true
is_empty (x ∷ xs) = false

module _ ⦃fl : Floats⦄ where
  open fl use {Float, decimal, lt}

  abbrev pub budget_of : EvaluationState Float → Float
  budget_of state = get_or state.config.max_budget_usd (decimal 5 0)

  -- `_is_budget_exceeded`
  unfoldable pub is_budget_exceeded : EvaluationState Float → Bool
  is_budget_exceeded state = lt (budget_of state) state.total_cost_usd

  -- `none` is `END`.
  route_after_generation : EvaluationState Float → Option Node
  route_after_generation state =
      if is_budget_exceeded state || is_empty state.scenarios then none else some simulate

  route_after_simulation : EvaluationState Float → Option Node
  route_after_simulation state =
      if is_budget_exceeded state || is_empty state.traces then none else some judge

  route_after_judgment : EvaluationState Float → Option Node
  route_after_judgment state = if is_budget_exceeded state then none else some analyze

  route_after_analyze : EvaluationState Float → Option Node
  route_after_analyze state = if is_budget_exceeded state then none else some evolution

  -- the edges that `build_evaluation_graph` adds
  unfoldable pub route : Node → EvaluationState Float → Option Node
  unfolding route_after_generation route_after_simulation route_after_judgment route_after_analyze
  route generate state = route_after_generation state
  route simulate state = route_after_simulation state
  route judge state = route_after_judgment state
  route analyze state = route_after_analyze state
  route evolution state = none

  abbrev pub cons_update : Node → Update Float → GraphRun Float → GraphRun Float
  cons_update n u r = record r { updates = (n, u) ∷ r.updates }

  -- what follows a node, given how to go on
  abbrev pub after_node :
      (Option Node → EvaluationState Float → GraphRun Float)
      → Node
      → EvaluationState Float
      → NodeResult Float
      → GraphRun Float
  after_node run n s (raised e) = record { updates = []; final = s; stop = node_failed e }
  after_node run n s (returned u) = let s' = reduce s u in cons_update n u (run (route n s') s')

  module _ (node : Node → EvaluationState Float → NodeResult Float) where
    -- one step for each unit of the recursion limit
    unfoldable pub run_from : ℕ → Option Node → EvaluationState Float → GraphRun Float
    run_from limit none s = record { updates = []; final = s; stop = reached_end }
    run_from zero (some n) s = record { updates = []; final = s; stop = recursion_limit }
    run_from (suc limit) (some n) s = after_node (run_from limit) n s (node n s)

    unfoldable pub run_graph : ℕ → EvaluationState Float → GraphRun Float
    unfolding run_from
    run_graph limit s = run_from limit (some generate) s
