-- ===== src/Agents/Pipeline/Evaluated.antt =====
-- A whole run of the graph that src/backend/agents/orchestrator.py builds, with its five nodes.
use crucible.Base.{
  ℕ, zero, suc, ◌+◌, ◌≤◌, ◌≡◌, ◌∙◌, refl, ap, List, [], Option, none, some, arith, length,
  length-append, Floats, inl, inr,
}
use crucible.Agents.State.{EvaluationState, Update, no_update, reduce, get_or, extend}
use crucible.Agents.Orchestrator.{
  Node, generate, simulate, judge, analyze, evolution, returned, raised, route, run_from, run_graph,
}
use crucible.Agents.Orchestrator.Routing.{next, route-next}
use crucible.Agents.Simulator.{simulate_environment_node}
use crucible.Agents.Judge.{judge_trace_node}
use crucible.Agents.Pipeline.{Services, node, evaluate}
use crucible.Agents.Pipeline.Nested.{
  IsNested, reduce-IsNested, analyze_drift_node-LeavesLists, evolution_node-LeavesLists,
  generate_keeps, simulate_keeps, judge_keeps,
}

extend-none : {A : Type 0} (u : Option (List A)) → u ≡ none → (xs : List A) → extend xs u ≡ xs
extend-none u e xs = rw e refl

length-extend :
    {A : Type 0} (xs : List A) (u : Option (List A))
    → length (extend xs u) ≡ length xs + length (get_or u [])
length-extend xs none = omega arith
length-extend xs (some ys) = length-append xs ys

module _ ⦃fl : Floats⦄ where
  open fl use {Float}

  -- what holds of the state before a node
  abbrev pub Before : Option Node → EvaluationState Float → Type 0
  Before (some generate) s = (s.traces ≡ []) × (s.judgments ≡ [])
  Before (some simulate) s = (s.traces ≡ []) × (s.judgments ≡ [])
  Before (some judge) s = (length s.traces ≤ length s.scenarios) × (s.judgments ≡ [])
  Before _ s = IsNested s

  Before-IsNested : (n : Option Node) (s : EvaluationState Float) → Before n s → IsNested s
  Before-IsNested (some generate) s (t, j) = record {
    judgments = rw (t, j) (omega arith);
    traces = rw t (omega arith);
  }
  Before-IsNested (some simulate) s (t, j) = record {
    judgments = rw (t, j) (omega arith);
    traces = rw t (omega arith);
  }
  Before-IsNested (some judge) s (t, j) = record { judgments = rw j (omega arith); traces = t }
  Before-IsNested (some analyze) s h = h
  Before-IsNested (some evolution) s h = h
  Before-IsNested none s h = h

  module _ (services : Services Float) where
    -- the update of a node, which does not raise
    node_update : Node → EvaluationState Float → Update Float
    unfolding node
    node_update n s = elim (node services n s) [ returned u ↦ u | raised e ↦ no_update ]

    node_returns :
        (n : Node) (s : EvaluationState Float) → node services n s ≡ returned (node_update n s)
    unfolding node node_update
    node_returns generate s = refl
    node_returns simulate s = refl
    node_returns judge s = refl
    node_returns analyze s = refl
    node_returns evolution s = refl

    Before-next :
        (n : Node) (s : EvaluationState Float)
        → Before (some n) s
        → Before (next n) (reduce s (node_update n s))
    unfolding node node_update reduce
    Before-next generate s (t, j) =
        let (a, b) = generate_keeps services.uuid services.generate_scenarios s in
        (extend-none _ a s.traces ∙ t, extend-none _ b s.judgments ∙ j)
    Before-next simulate s (t, j) =
        let (a, b, few) = simulate_keeps services.simulation s in
        (
          omega (
            arith,
            length-extend s.traces (simulate_environment_node services.simulation s).traces,
            ap length t,
            few,
            ap length (extend-none _ a s.scenarios),
          ),
          extend-none _ b s.judgments ∙ j,
        )
    Before-next judge s (t, j) =
        let (a, b, few) = judge_keeps services.judge s in
        let same_traces = ap length (extend-none _ b s.traces) in
        let same_scenarios = ap length (extend-none _ a s.scenarios) in
        record {
          judgments = omega (
            arith,
            length-extend s.judgments (judge_trace_node services.judge s).judgments,
            ap length j,
            few,
            same_traces,
          );
          traces = omega (arith, t, same_traces, same_scenarios);
        }
    Before-next analyze s h =
        reduce-IsNested s _
          (analyze_drift_node-LeavesLists services.analysis s services.world services.points) h
    Before-next evolution s h =
        reduce-IsNested s _ (evolution_node-LeavesLists services.suggest s) h

    Before-route : (n : Node) (s : EvaluationState Float) → Before (next n) s → Before (route n s) s
    Before-route n s h = elim (route-next n s) [
      | inl e ↦ rw e (Before-IsNested (next n) s h)
      | inr (e, _) ↦ rw e h
    ]

    run_from-IsNested :
        (limit : ℕ) (n : Option Node) (s : EvaluationState Float)
        → Before n s
        → IsNested (run_from (node services) limit n s).final
    unfolding run_from
    run_from-IsNested zero none s h = h
    run_from-IsNested (suc limit) none s h = h
    run_from-IsNested zero (some n) s h = Before-IsNested (some n) s h
    run_from-IsNested (suc limit) (some n) s h =
        let u = node_update n s in
        let s' = reduce s u in
        rw (node_returns n s)
          (run_from-IsNested limit (route n s') s' (Before-route n s' (Before-next n s h)))

    -- Whatever the services answer, an evaluation that starts without traces and judgments ends with
    -- at most as many judgments as traces, and at most as many traces as scenarios.
    pub evaluate-IsNested :
        (limit : ℕ) (s : EvaluationState Float)
        → s.traces ≡ []
        → s.judgments ≡ []
        → IsNested (evaluate services limit s).final
    unfolding evaluate run_graph
    evaluate-IsNested limit s t j = run_from-IsNested limit (some generate) s (t, j)
