-- ===== src/Agents/Analyzer.antt =====
-- src/backend/agents/analyzer.py: the drift of a run against its golden baseline. S3, the language
-- model, numpy and the order in which Python walks a set are parameters. The traces of one call are
-- processed concurrently and share nothing but the collection, whose points are those of the
-- baseline when it is read.
use Prim.Native.String.{◌++◌ as str_append}
use crucible.Base.{ℕ, String, List, [], ◌∷◌, Option, none, some, ◌++◌, Floats}
use crucible.Db.Run.{Exn, DriftProfile}
use crucible.Db.Models.{World}
use crucible.Worker.Result.{Result, ok, raised}
use crucible.Connectors.VectorDb.{Point, upsert_trace_embedding, get_baseline_vectors}
use crucible.Agents.Drift.{
  Numerics, DriftResult, insufficient_overlap, success, set_item, compute_drift_math,
}
use crucible.Agents.Baseline.{embedding_model, resolve_baseline}
use crucible.Agents.State.{
  TraceMeta, GraphError, EvaluationState, Update, no_update, no_traces, trace_fetch_failed,
  trace_embedding_failed,
}

-- What a processed trace is: `{"error": …}`, or its vector and cost.
pub data Processed (F : Type 0) : Type 0 where
  error : GraphError → Processed F
  embedded : (scenario_id : ℕ) (vector : List F) (cost_usd : F) → Processed F

-- Each call of the outside for one trace; `qdrant` and `scroll` give what the service raises.
pub record Analysis (F : Type 0) : Type 0 where
  pub download_trace : (storage_key : Option String) → Result String
  pub generate : (prompt : String) → Result (String × F)
  pub embed : (summary : String) → Result (List F × F)
  pub qdrant : (trace_id : ℕ) → Option Exn
  pub scroll : Option Exn
  pub numerics : Numerics F

abbrev pub prompt_of : (trace_data : String) → String
prompt_of trace_data =
    str_append
      "Extract the agent's step-by-step strategy, tool usage sequence, and reasoning logic from the following trace, ignoring specific data values and timestamps.\n\nTRACE:\n"
      trace_data

module _ ⦃fl : Floats⦄ where
  open fl use {Float, decimal, add, sub, div, lt}

  module _ (env : Analysis Float) where
    open env use {download_trace, generate, embed, qdrant, scroll}

    abbrev pub point_of : (tenant_id run_id : ℕ) → TraceMeta → List Float → Point Float
    point_of tenant_id run_id t vector = record {
      id = t.trace_id;
      vector = vector;
      tenant_id = tenant_id;
      run_id = run_id;
      embedding_model_version = embedding_model;
      scenario_id = t.scenario_id;
    }

    unfoldable pub process_single_trace :
        (tenant_id run_id : ℕ)
        → TraceMeta
        → List (Point Float)
        → Processed Float × List (Point Float)
    unfolding upsert_trace_embedding
    process_single_trace tenant_id run_id t points =
        let failed : Exn → Processed Float =
          λ e. Processed.error (trace_embedding_failed t.trace_id e) in
        elim (download_trace t.storage_key) [
          | raised e ↦ (Processed.error (trace_fetch_failed t.storage_key e), points)
          | ok trace_data ↦ elim (generate (prompt_of trace_data)) [
            | raised e ↦ (failed e, points)
            | ok (summary_text, sum_cost) ↦ elim (embed summary_text) [
              | raised e ↦ (failed e, points)
              | ok (vector, emb_cost) ↦
                  let point = point_of tenant_id run_id t vector in
                  let (done, points') = upsert_trace_embedding (qdrant t.trace_id) point points in
                  elim done [
                    | raised e ↦ (failed e, points')
                    | ok _ ↦ (embedded t.scenario_id vector (add sum_cost emb_cost), points')
                  ]
            ]
          ]
        ]

    -- `asyncio.gather` of the traces
    unfoldable pub process_all :
        (tenant_id run_id : ℕ)
        → List TraceMeta
        → List (Point Float)
        → List (Processed Float) × List (Point Float)
    unfolding process_single_trace
    process_all tenant_id run_id [] points = ([], points)
    process_all tenant_id run_id (t ∷ ts) points =
        let (r, points') = process_single_trace tenant_id run_id t points in
        let (rs, points'') = process_all tenant_id run_id ts points' in (r ∷ rs, points'')

    -- the loop over the results: errors, vectors by scenario, and the cost from the left
    unfoldable pub collect_vectors :
        List (ℕ × List Float)
        → Float
        → List (Processed Float)
        → List GraphError × List (ℕ × List Float) × Float
    collect_vectors vectors total_cost [] = ([], vectors, total_cost)
    collect_vectors vectors total_cost (Processed.error e ∷ rs) =
        let (es, vs, c) = collect_vectors vectors total_cost rs in (e ∷ es, vs, c)
    collect_vectors vectors total_cost (embedded scenario_id vector cost ∷ rs) =
        collect_vectors (set_item scenario_id vector vectors) (add total_cost cost) rs

  -- the profile that is stored, and the error that is reported
  abbrev pub profile_of :
      (baseline_run_id : ℕ) → DriftResult Float → Option (DriftProfile Float) × List GraphError
  profile_of b (DriftResult.error e) = (none, e ∷ [])
  profile_of b insufficient_overlap = (some (DriftProfile.insufficient_overlap b), [])
  profile_of b (success score band count) = (some (DriftProfile.success score band count b), [])

  -- errors are always in the update, also when there are none
  unfoldable pub update_of :
      (total_cost : Float) (errors : List GraphError)
      → Option (DriftProfile Float) × List GraphError
      → Update Float
  update_of total_cost errors (profile, more) = record no_update {
    drift_profile = some profile;
    total_cost_usd = some total_cost;
    errors = some (errors ++ more);
  }

  module _ (env : Analysis Float) where
    -- the part after the traces are processed
    unfoldable pub against_baseline :
        (tenant_id : ℕ)
        → Option ℕ
        → List (ℕ × List Float)
        → List (Point Float)
        → Option (DriftProfile Float) × List GraphError
    unfolding get_baseline_vectors compute_drift_math
    against_baseline tenant_id none vectors points = (some DriftProfile.baseline_missing, [])
    against_baseline tenant_id (some b) vectors points = profile_of b (
        compute_drift_math env.numerics vectors
          (get_baseline_vectors env.scroll tenant_id b embedding_model points))

    unfoldable pub analyze_traces :
        EvaluationState Float
        → List TraceMeta
        → World Float
        → List (Point Float)
        → Update Float × List (Point Float)
    unfolding process_all collect_vectors resolve_baseline against_baseline update_of
    analyze_traces state [] w points =
        (record no_update { drift_profile = some none; errors = some (no_traces ∷ []) }, points)
    analyze_traces state (t ∷ ts) w points =
        let (results, points') = process_all env state.tenant_id state.run_id (t ∷ ts) points in
        let (errors, current_vectors, total_cost) = collect_vectors env [] (decimal 0 0) results in
        let baseline = resolve_baseline state.tenant_id state.agent_id state.run_id w in
        (
          update_of total_cost errors
              (against_baseline state.tenant_id baseline current_vectors points'),
          points',
        )

    unfoldable pub analyze_drift_node :
        EvaluationState Float → World Float → List (Point Float) → Update Float × List (Point Float)
    unfolding analyze_traces
    analyze_drift_node state = analyze_traces state state.traces
