-- ===== src/Agents/Pipeline/Nested.antt =====
-- How many scenarios, traces and judgments an evaluation has: the nodes of src/backend/agents together.
use crucible.Base.{
  ℕ, ◌≤◌, ◌≡◌, refl, Bool, String, List, [], ◌∷◌, none, arith, length, filter, Floats, ◌⊎◌, inl,
  inr, Bool-cases, Option-cases,
}
use crucible.Db.Models.{World}
use crucible.Worker.Result.{Result, Result-cases}
use crucible.Connectors.VectorDb.{Point}
use crucible.Agents.State.{EvaluationState, TraceMeta, Update, JudgmentData, reduce, get_or}
use crucible.Agents.Orchestrator.{is_empty}
use crucible.Agents.Generator.{ScenarioGenerationItem, generate_scenarios_node}
use crucible.Agents.Simulator.{Simulation, simulate_environment_node, connector_error}
use crucible.Agents.Simulator.Counts.{simulate_environment_node-length}
use crucible.Agents.Judge.{Judge, judge_trace_node, judge_traces, is_unjudged}
use crucible.Agents.Judge.Once.{judge_trace_node-length}
use crucible.Agents.Evolution.{EvolutionSuggestion, evolution_node, worst_failures}
use crucible.Agents.Analyzer.{Analysis, analyze_drift_node, analyze_traces, update_of}

List-cases : {A : Type 0} (xs : List A) → (xs ≡ []) ⊎ ((x : A) × (ys : List A) × (xs ≡ x ∷ ys))
List-cases [] = inl refl
List-cases (x ∷ xs) = inr (x, xs, refl)

length-filter : {A : Type 0} (p : A → Bool) (xs : List A) → length (filter p xs) ≤ length xs
length-filter p [] = omega arith
length-filter p (x ∷ xs) = ground (arith, length-filter p xs)

module _ ⦃fl : Floats⦄ where
  open fl use {Float}

  -- no more judgments than traces, and no more traces than scenarios
  pub record IsNested (s : EvaluationState Float) : Type 0 where
    pub judgments : length s.judgments ≤ length s.traces
    pub traces : length s.traces ≤ length s.scenarios

  -- an update that sets neither scenarios nor traces nor judgments
  pub record LeavesLists (u : Update Float) : Type 0 where
    pub scenarios : u.scenarios ≡ none
    pub traces : u.traces ≡ none
    pub judgments : u.judgments ≡ none

  pub reduce-IsNested :
      (s : EvaluationState Float) (u : Update Float)
      → LeavesLists u
      → IsNested s
      → IsNested (reduce s u)
  unfolding reduce
  reduce-IsNested s u l h = record {
    judgments = rw (l.judgments, l.traces) h.judgments;
    traces = rw (l.traces, l.scenarios) h.traces;
  }

  analyze_traces-LeavesLists :
      (env : Analysis Float) (s : EvaluationState Float) (w : World Float)
      (points : List (Point Float)) (ts : List TraceMeta)
      → LeavesLists (analyze_traces env s ts w points).0
  unfolding analyze_traces update_of
  analyze_traces-LeavesLists env s w points [] = record {
    scenarios = refl;
    traces = refl;
    judgments = refl;
  }
  analyze_traces-LeavesLists env s w points (t ∷ ts) = record {
    scenarios = refl;
    traces = refl;
    judgments = refl;
  }

  pub analyze_drift_node-LeavesLists :
      (env : Analysis Float) (s : EvaluationState Float) (w : World Float)
      (points : List (Point Float))
      → LeavesLists (analyze_drift_node env s w points).0
  unfolding analyze_drift_node
  analyze_drift_node-LeavesLists env s w points = analyze_traces-LeavesLists env s w points s.traces

  pub evolution_node-LeavesLists :
      (suggest : String → List (JudgmentData Float) → Result (EvolutionSuggestion × Float))
      (s : EvaluationState Float)
      → LeavesLists (evolution_node suggest s)
  unfolding evolution_node
  evolution_node-LeavesLists suggest s = elim (List-cases (worst_failures s.judgments)) [
    | inl no_failure ↦
        rw (no_failure, evolution_node) record { scenarios = refl; traces = refl; judgments = refl }
    | inr (j, js, e) ↦
        elim (Result-cases (suggest (get_or s.config.target_system_prompt "") (j ∷ js))) [
          | inl (a, r) ↦
              rw (e, evolution_node)
                (rw r record { scenarios = refl; traces = refl; judgments = refl })
          | inr (x, r) ↦
              rw (e, evolution_node)
                (rw r record { scenarios = refl; traces = refl; judgments = refl })
        ]
  ]

  -- an update that sets neither traces nor judgments
  pub generate_keeps :
      (uuid : ℕ → ℕ) (generate : ℕ → String → String → Result (List ScenarioGenerationItem × Float))
      (s : EvaluationState Float)
      → (let u = generate_scenarios_node uuid generate s in
          (u.traces ≡ none) × (u.judgments ≡ none))
  unfolding generate_scenarios_node
  generate_keeps uuid generate s =
      elim (Result-cases (
        generate (get_or s.config.scenario_count 3)
          (get_or s.config.target_description "An AI agent")
          (get_or s.config.target_system_prompt "You are a helpful assistant"))) [
            | inl (a, e) ↦ rw (e, generate_scenarios_node) (refl, refl)
            | inr (x, e) ↦ rw (e, generate_scenarios_node) (refl, refl)
          ]

  pub simulate_keeps :
      (sim : Simulation) (s : EvaluationState Float)
      → (let u = simulate_environment_node sim s in
          (u.scenarios ≡ none)
          × (u.judgments ≡ none)
          × (length (get_or u.traces []) ≤ length s.scenarios))
  unfolding simulate_environment_node
  simulate_keeps sim s = elim (Bool-cases (is_empty s.scenarios)) [
    | inl no_scenarios ↦ rw (no_scenarios, simulate_environment_node) (refl, refl, omega arith)
    | inr there ↦ elim (Option-cases (connector_error sim s.config)) [
      | inl usable ↦
          let few : length (get_or (simulate_environment_node sim s).traces [])
              ≤ length s.scenarios =
            omega (arith, (simulate_environment_node-length sim s usable).0) in
          (
            rw (there, usable, simulate_environment_node) refl,
            rw (there, usable, simulate_environment_node) refl,
            few,
          )
      | inr (e, q) ↦ rw (there, q, simulate_environment_node) (refl, refl, omega arith)
    ]
  ]

  judge_traces_keeps :
      (env : Judge Float) (s : EvaluationState Float) (ts : List TraceMeta)
      → (let u = judge_traces env s ts in (u.scenarios ≡ none) × (u.traces ≡ none))
  unfolding judge_traces
  judge_traces_keeps env s [] = (refl, refl)
  judge_traces_keeps env s (t ∷ ts) = (refl, refl)

  pub judge_keeps :
      (env : Judge Float) (s : EvaluationState Float)
      → (let u = judge_trace_node env s in
          (u.scenarios ≡ none)
          × (u.traces ≡ none)
          × (length (get_or u.judgments []) ≤ length s.traces))
  unfolding judge_trace_node
  judge_keeps env s =
      let open_traces = filter (is_unjudged env s.judgments) s.traces in
      let (a, b) = judge_traces_keeps env s open_traces in
      (
        a,
        b,
        omega (
          arith,
          (judge_trace_node-length env s).0,
          length-filter (is_unjudged env s.judgments) s.traces,
        ),
      )
