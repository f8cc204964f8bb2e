-- ===== src/Agents/Drift.antt =====
-- src/backend/agents/analyzer.py: `_compute_drift_math`, and the dictionaries of vectors by scenario.
pub mod Overlap
use Prim.Native.String.{◌++◌ as str_append}
use text.Mathlib.Text.{◌==◌ as str_eq}
use crucible.Base.{
  ℕ, String, Bool, true, false, not, List, [], ◌∷◌, Option, none, some, ◌==◌, ltb, leb, ◌&&◌, any,
  filter, find?, length, map, ◌++◌, Floats, if◌then◌else◌,
}
use crucible.Db.Run.{Exn, EvaluationRun, DriftProfile}
use crucible.Db.Models.{World}
use crucible.Db.Order.{page, order_by_asc, first}
use crucible.Worker.Result.{Result, ok, raised}
use crucible.Connectors.VectorDb.{
  Point, BaselineVector, upsert_trace_embedding, get_baseline_vectors,
}
use crucible.Agents.State.{
  TraceMeta, GraphError, EvaluationState, Update, no_update, no_traces, trace_fetch_failed,
  trace_embedding_failed, no_overlap,
}

-- numpy and `round`, and the order in which Python walks a set
pub record Numerics (F : Type 0) : Type 0 where
  -- `np.dot(v1, v2) / (np.linalg.norm(v1) * np.linalg.norm(v2))`
  pub similarity : List F → List F → F
  pub set_order : List ℕ → List ℕ
  pub round_4 : F → F

-- `d[key] = value`
abbrev pub set_item : {V : Type 0} → ℕ → V → List (ℕ × V) → List (ℕ × V)
set_item key v [] = (key, v) ∷ []
set_item key v ((k, u) ∷ d) =
    let rest = set_item key v d in if k == key then (k, v) ∷ d else (k, u) ∷ rest

abbrev pub has_key : {V : Type 0} → ℕ → List (ℕ × V) → Bool
has_key key d = any (λ i. i.0 == key) d

-- `d[key]`, where the key is there
abbrev pub value_at : {V : Type 0} → ℕ → List (ℕ × List V) → List V
value_at key d = elim (find? (λ i. i.0 == key) d) [ none ↦ [] | some (_, v) ↦ v ]

abbrev pub keys : {V : Type 0} → List (ℕ × V) → List ℕ
keys = map (λ i. i.0)

-- What `_compute_drift_math` returns.
pub data DriftResult (F : Type 0) : Type 0 where
  error : GraphError → DriftResult F
  insufficient_overlap : DriftResult F
  success : (score : F) (band : String) (overlap_count : ℕ) → DriftResult F

module _ ⦃fl : Floats⦄ where
  open fl use {Float, decimal, add, sub, div, lt}

  module _ (numerics : Numerics Float) where
    open numerics use {similarity, set_order, round_4}

    -- `{bv["scenario_id"]: bv["vector"] for bv in baseline_vectors}`
    abbrev pub base_vec_map :
        List (ℕ × List Float) → List (BaselineVector Float) → List (ℕ × List Float)
    base_vec_map d [] = d
    base_vec_map d (bv ∷ bvs) = base_vec_map (set_item bv.scenario_id bv.vector d) bvs

    abbrev pub overlap : List (ℕ × List Float) → List (ℕ × List Float) → List ℕ
    overlap current base = filter (λ sid. has_key sid base) (keys current)

    abbrev sum_from : Float → List Float → Float
    sum_from total [] = total
    sum_from total (x ∷ xs) = sum_from (add total x) xs

    abbrev pub band_of : Float → String
    band_of drift_score =
        if lt drift_score (decimal 1 1)
        then "Stable"
        else if lt drift_score (decimal 25 2)
        then "Minor Drift"
        else "Significant Drift"

    unfoldable pub compute_drift_math :
        List (ℕ × List Float) → List (BaselineVector Float) → DriftResult Float
    compute_drift_math current_vectors baseline_vectors =
        let base = base_vec_map [] baseline_vectors in
        let overlapping = overlap current_vectors base in
        let similarities =
          map (λ sid. similarity (value_at sid current_vectors) (value_at sid base))
            (set_order overlapping) in
        let mean_sim =
          div (sum_from (decimal 0 0) similarities) (decimal (length similarities) 0) in
        let drift_score = sub (decimal 1 0) mean_sim in
        if ltb (length overlapping) 5 && leb 5 (length current_vectors) && length overlapping == 0
        then insufficient_overlap
        else if length overlapping == 0
        then DriftResult.error no_overlap
        else success (round_4 drift_score) (band_of drift_score) (length overlapping)
