-- ===== src/Agents/Orchestrator/Routing.antt =====
-- Which nodes a run of the graph visits, when it stops, and what it returns.
use crucible.Base.{
  ℕ, zero, suc, ◌≤◌, ◌≡◌, refl, ap, ◌≢◌, ◌⊎◌, inl, inr, false, List, [], ◌∷◌, map, Option, none,
  some, arith, length, take, Floats,
}
use crucible.Agents.State.{EvaluationState, Update, reduce}
use crucible.Agents.Orchestrator.{
  Node, generate, simulate, judge, analyze, evolution, NodeResult, returned, raised, after_node,
  GraphRun, recursion_limit, is_budget_exceeded, route, run_from, run_graph,
}

abbrev pub node_of : {F : Type 0} → Node × Update F → Node
node_of e = e.0

-- the nodes from one on, in the order of the edges
abbrev pub pipeline_from : Option Node → List Node
pipeline_from none = []
pipeline_from (some generate) = generate ∷ simulate ∷ judge ∷ analyze ∷ evolution ∷ []
pipeline_from (some simulate) = simulate ∷ judge ∷ analyze ∷ evolution ∷ []
pipeline_from (some judge) = judge ∷ analyze ∷ evolution ∷ []
pipeline_from (some analyze) = analyze ∷ evolution ∷ []
pipeline_from (some evolution) = evolution ∷ []

-- the node behind an unconditional edge
abbrev pub next : Node → Option Node
next generate = some simulate
next simulate = some judge
next judge = some analyze
next analyze = some evolution
next evolution = none

module _ ⦃fl : Floats⦄ where
  open fl use {Float}

  pub route-next :
      (n : Node) (s : EvaluationState Float)
      → (route n s ≡ none) ⊎ ((route n s ≡ next n) × (is_budget_exceeded s ≡ false))
  unfolding route
  route-next generate s = ground arith
  route-next simulate s = ground arith
  route-next judge s = ground arith
  route-next analyze s = ground arith
  route-next evolution s = inl refl

  pipeline_from-next : (n : Node) → pipeline_from (some n) ≡ n ∷ pipeline_from (next n)
  pipeline_from-next generate = refl
  pipeline_from-next simulate = refl
  pipeline_from-next judge = refl
  pipeline_from-next analyze = refl
  pipeline_from-next evolution = refl

  -- the updates, merged one after the other
  abbrev pub replay : EvaluationState Float → List (Node × Update Float) → EvaluationState Float
  replay s [] = s
  replay s ((n, u) ∷ us) = replay (reduce s u) us

  -- whenever a node follows another, the state that the first left is within the budget
  abbrev pub StaysWithinBudget : EvaluationState Float → List (Node × Update Float) → Type 0
  StaysWithinBudget s [] = Unit
  StaysWithinBudget s ((n, u) ∷ []) = Unit
  StaysWithinBudget s ((n, u) ∷ e ∷ us) =
      (is_budget_exceeded (reduce s u) ≡ false) × StaysWithinBudget (reduce s u) (e ∷ us)

  module _ (node : Node → EvaluationState Float → NodeResult Float) where
    abbrev InOrder : Option Node → GraphRun Float → Type 0
    InOrder n r = map node_of r.updates ≡ take (length r.updates) (pipeline_from n)

    InOrder-none :
        (limit : ℕ) (n : Option Node) (s : EvaluationState Float)
        → InOrder n (run_from node limit none s)
    unfolding run_from
    InOrder-none zero n s = refl
    InOrder-none (suc limit) n s = refl

    InOrder-cons :
        (n : Node) (u : Update Float) (r : GraphRun Float)
        → InOrder (next n) r
        → map node_of ((n, u) ∷ r.updates) ≡ take (suc (length r.updates)) (pipeline_from (some n))
    InOrder-cons n u r h = rw (pipeline_from-next n) (ap (λ l. n ∷ l) h)

    InOrder-route :
        (limit : ℕ) (n : Node) (s : EvaluationState Float)
        → InOrder (next n) (run_from node limit (next n) s)
        → InOrder (next n) (run_from node limit (route n s) s)
    InOrder-route limit n s h = elim (route-next n s) [
      | inl e ↦ rw e (InOrder-none limit (next n) s)
      | inr (e, _) ↦ rw e h
    ]

    run_from-InOrder :
        (limit : ℕ) (n : Option Node) (s : EvaluationState Float)
        → InOrder n (run_from node limit n s)
    unfolding run_from
    run_from-InOrder zero none s = refl
    run_from-InOrder (suc limit) none s = refl
    run_from-InOrder zero (some n) s = refl
    run_from-InOrder (suc limit) (some n) s =
        go (node n s) (λ s'. run_from-InOrder limit (next n) s')
      where
        go :
            (r : NodeResult Float)
            → ((s' : EvaluationState Float) → InOrder (next n) (run_from node limit (next n) s'))
            → InOrder (some n) (after_node (run_from node limit) n s r)
        go (raised e) ih = refl
        go (returned u) ih =
            InOrder-cons n u (run_from node limit (route n (reduce s u)) (reduce s u))
              (InOrder-route limit n (reduce s u) (ih (reduce s u)))

    abbrev Merges : EvaluationState Float → GraphRun Float → Type 0
    Merges s r = r.final ≡ replay s r.updates

    run_from-Merges :
        (limit : ℕ) (n : Option Node) (s : EvaluationState Float)
        → Merges s (run_from node limit n s)
    unfolding run_from
    run_from-Merges zero none s = refl
    run_from-Merges (suc limit) none s = refl
    run_from-Merges zero (some n) s = refl
    run_from-Merges (suc limit) (some n) s = go (node n s) (λ m s'. run_from-Merges limit m s')
      where
        go :
            (r : NodeResult Float)
            → ((m : Option Node) (s' : EvaluationState Float)
                → Merges s' (run_from node limit m s'))
            → Merges s (after_node (run_from node limit) n s r)
        go (raised e) ih = refl
        go (returned u) ih = ih (route n (reduce s u)) (reduce s u)

    abbrev InBudget : EvaluationState Float → GraphRun Float → Type 0
    InBudget s r = StaysWithinBudget s r.updates

    -- a node runs behind `n` only if the state is within the budget
    ends_or_within :
        (limit : ℕ) (n : Node) (s : EvaluationState Float)
        → ((run_from node limit (route n s) s).updates ≡ []) ⊎ (is_budget_exceeded s ≡ false)
    ends_or_within limit n s = elim (route-next n s) [
      | inl e ↦ inl (rw e (stops limit))
      | inr (_, within) ↦ inr within
    ]
      where
        stops : (k : ℕ) → (run_from node k none s).updates ≡ []
        stops zero = unfold run_from in refl
        stops (suc k) = unfold run_from in refl

    StaysWithinBudget-cons :
        (n : Node) (u : Update Float) (s : EvaluationState Float) (us : List (Node × Update Float))
        → (us ≡ []) ⊎ (is_budget_exceeded (reduce s u) ≡ false)
        → StaysWithinBudget (reduce s u) us
        → StaysWithinBudget s ((n, u) ∷ us)
    StaysWithinBudget-cons n u s [] h k = tt
    StaysWithinBudget-cons n u s (e ∷ us) (inl h) k = cc
    StaysWithinBudget-cons n u s (e ∷ us) (inr h) k = (h, k)

    run_from-InBudget :
        (limit : ℕ) (n : Option Node) (s : EvaluationState Float)
        → InBudget s (run_from node limit n s)
    unfolding run_from
    run_from-InBudget zero none s = tt
    run_from-InBudget (suc limit) none s = tt
    run_from-InBudget zero (some n) s = tt
    run_from-InBudget (suc limit) (some n) s = go (node n s) (λ m s'. run_from-InBudget limit m s')
      where
        go :
            (r : NodeResult Float)
            → ((m : Option Node) (s' : EvaluationState Float)
                → InBudget s' (run_from node limit m s'))
            → InBudget s (after_node (run_from node limit) n s r)
        go (raised e) ih = tt
        go (returned u) ih =
            let s' = reduce s u in
            StaysWithinBudget-cons n u s (run_from node limit (route n s') s').updates
              (ends_or_within limit n s') (ih (route n s') s')

    -- enough steps for the nodes that are left
    run_from-limit :
        (limit : ℕ) (n : Option Node) (s : EvaluationState Float)
        → length (pipeline_from n) ≤ limit
        → (run_from node limit n s).stop ≢ recursion_limit
    unfolding run_from
    run_from-limit zero none s h = λ e. cc
    run_from-limit (suc limit) none s h = λ e. cc
    run_from-limit zero (some n) s h = absurd (omega (arith, ap length (pipeline_from-next n)))
    run_from-limit (suc limit) (some n) s h = go (node n s) (λ m s' k. run_from-limit limit m s' k)
      where
        go :
            (r : NodeResult Float)
            → ((m : Option Node) (s' : EvaluationState Float)
                → length (pipeline_from m) ≤ limit
                → (run_from node limit m s').stop ≢ recursion_limit)
            → (after_node (run_from node limit) n s r).stop ≢ recursion_limit
        go (raised e) ih = λ q. cc
        go (returned u) ih = elim (route-next n (reduce s u)) [
          | inl e ↦ ih (route n (reduce s u)) (reduce s u) (rw e (omega arith))
          | inr (e, _) ↦
              ih (route n (reduce s u)) (reduce s u)
                (rw e (omega (arith, ap length (pipeline_from-next n))))
        ]

  module _ (node : Node → EvaluationState Float → NodeResult Float) (limit : ℕ)
      (s : EvaluationState Float) where
    -- Whatever the nodes return, the graph visits its nodes in the order generate, simulate, judge,
    -- analyze, evolution, each at most once and none skipped: the visited nodes are the first ones
    -- of this list.
    pub run_graph-order :
        let us = (run_graph node limit s).updates in
        map node_of us ≡ take (length us) (generate ∷ simulate ∷ judge ∷ analyze ∷ evolution ∷ [])
    unfolding run_graph
    run_graph-order = run_from-InOrder node limit (some generate) s

    -- Whatever the nodes return, a node other than the first runs only if the merged state that the
    -- node before it left is within the budget.
    pub run_graph-StaysWithinBudget : StaysWithinBudget s (run_graph node limit s).updates
    unfolding run_graph
    run_graph-StaysWithinBudget = run_from-InBudget node limit (some generate) s

    -- The final state is the initial one with the streamed updates merged in order.
    pub run_graph-eq-replay :
        (run_graph node limit s).final ≡ replay s (run_graph node limit s).updates
    unfolding run_graph
    run_graph-eq-replay = run_from-Merges node limit (some generate) s

    -- With a recursion limit of at least five steps (LangGraph's default is 25), no run of the
    -- graph ends by the limit: it reaches the end, or a node raised.
    pub run_graph-terminates : 5 ≤ limit → (run_graph node limit s).stop ≢ recursion_limit
    unfolding run_graph
    run_graph-terminates h = run_from-limit node limit (some generate) s h
