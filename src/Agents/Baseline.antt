-- ===== src/Agents/Baseline.antt =====
-- src/backend/agents/analyzer.py: `_resolve_baseline`.
pub mod Resolution
use Prim.Native.String.{◌++◌ as str_append}
use text.Mathlib.Text.{◌==◌ as str_eq}
use crucible.Base.{
  ℕ, String, Bool, true, false, not, List, [], ◌∷◌, Option, none, some, ◌==◌, ltb, leb, ◌&&◌, any,
  filter, find?, length, map, ◌++◌, Floats, if◌then◌else◌,
}
use crucible.Db.Run.{Exn, EvaluationRun, DriftProfile}
use crucible.Db.Models.{World}
use crucible.Db.Order.{page, order_by_asc, first}
use crucible.Worker.Result.{Result, ok, raised}
use crucible.Connectors.VectorDb.{
  Point, BaselineVector, upsert_trace_embedding, get_baseline_vectors,
}
use crucible.Agents.State.{
  TraceMeta, GraphError, EvaluationState, Update, no_update, no_traces, trace_fetch_failed,
  trace_embedding_failed, no_overlap,
}

abbrev pub embedding_model : String
embedding_model = "text-embedding-3-small"

module _ ⦃fl : Floats⦄ where
  open fl use {Float, decimal, lt}

  -- the conditions of the two queries
  abbrev pub is_pinned : (tenant_id agent_id : ℕ) → EvaluationRun Float → Bool
  is_pinned tenant_id agent_id r =
      r.tenant_id == tenant_id && r.agent_config_id == agent_id && r.is_baseline

  -- `avg_score >= 80`, which NULL does not meet
  abbrev pub scores_80 : EvaluationRun Float → Bool
  scores_80 r = elim r.avg_score [ none ↦ false | some s ↦ not (lt s (decimal 80 0)) ]

  abbrev pub is_fallback : (tenant_id agent_id run_id : ℕ) → EvaluationRun Float → Bool
  is_fallback tenant_id agent_id run_id r =
      r.tenant_id == tenant_id
      && r.agent_config_id == agent_id
      && scores_80 r
      && not (r.id == run_id)

  -- the model of the baseline's embeddings is the one in use
  abbrev pub is_current_model : EvaluationRun Float → Bool
  is_current_model r = elim r.embedding_model_version [
    | none ↦ false
    | some v ↦ str_eq v embedding_model
  ]

  unfoldable pub pinned_or_fallback :
      (tenant_id agent_id run_id : ℕ) → World Float → Option (EvaluationRun Float)
  pinned_or_fallback tenant_id agent_id run_id w =
      elim (first (page (λ r. r.created_at) (is_pinned tenant_id agent_id) 0 1 w.runs)) [
        | some baseline ↦ some baseline
        | none ↦ first (
            order_by_asc (λ r. r.created_at)
              (filter (is_fallback tenant_id agent_id run_id) w.runs))
      ]

  unfoldable pub resolve_baseline : (tenant_id agent_id run_id : ℕ) → World Float → Option ℕ
  unfolding pinned_or_fallback
  resolve_baseline tenant_id agent_id run_id w =
      elim (pinned_or_fallback tenant_id agent_id run_id w) [
        | none ↦ none
        | some baseline ↦ if is_current_model baseline then some baseline.id else none
      ]
