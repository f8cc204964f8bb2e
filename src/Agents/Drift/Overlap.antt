-- ===== src/Agents/Drift/Overlap.antt =====
-- When a drift is computed: `_compute_drift_math` of src/backend/agents/analyzer.py.
use crucible.Base.{
  ℕ, ◌≡◌, refl, Bool, ◌||◌, ◌==◌, List, [], ◌∷◌, Option, none, some, arith, any, count, length,
  Floats, if◌then◌else◌,
}
use crucible.Connectors.VectorDb.{BaselineVector}
use crucible.Agents.Drift.{
  Numerics, DriftResult, error, insufficient_overlap, success, set_item, has_key, base_vec_map,
  overlap, compute_drift_math,
}

has_key-set_item :
    {V : Type 0} (k key : ℕ) (v : V) (d : List (ℕ × V))
    → has_key k (set_item key v d) ≡ (key == k || has_key k d)
has_key-set_item k key v [] = refl
has_key-set_item k key v ((j, u) ∷ d) = ground (arith, has_key-set_item k key v d)

-- the number of common scenarios of a result
abbrev pub overlap_count_of : {F : Type 0} → DriftResult F → Option ℕ
overlap_count_of (error _) = none
overlap_count_of insufficient_overlap = none
overlap_count_of (success _ _ n) = some n

module _ ⦃fl : Floats⦄ (numerics : Numerics fl.Float) where
  open fl use {Float}

  -- a baseline vector of this scenario
  abbrev pub has_scenario : List (BaselineVector Float) → ℕ → Bool
  has_scenario bvs sid = any (λ bv. bv.scenario_id == sid) bvs

  has_key-base_vec_map :
      (k : ℕ) (d : List (ℕ × List Float)) (bvs : List (BaselineVector Float))
      → has_key k (base_vec_map numerics d bvs) ≡ (has_key k d || has_scenario bvs k)
  has_key-base_vec_map k d [] = ground arith
  has_key-base_vec_map k d (bv ∷ bvs) = ground (
    arith,
    has_key-base_vec_map k (set_item bv.scenario_id bv.vector d) bvs,
    has_key-set_item k bv.scenario_id bv.vector d,
  )

  overlap-length :
      (current : List (ℕ × List Float)) (bvs : List (BaselineVector Float))
      → length (overlap numerics current (base_vec_map numerics [] bvs))
        ≡ count (λ i. has_scenario bvs i.0) current
  overlap-length [] bvs = refl
  overlap-length ((sid, v) ∷ current) bvs =
      ground (arith, overlap-length current bvs, has_key-base_vec_map sid [] bvs)

  -- A drift is computed if and only if one scenario at least has both a vector of the run and a vector
  -- of the baseline, and it reports the number of these scenarios.
  pub compute_drift_math-overlap :
      (current : List (ℕ × List Float)) (bvs : List (BaselineVector Float))
      → let common = count (λ i. has_scenario bvs i.0) current in
        overlap_count_of (compute_drift_math numerics current bvs)
        ≡ (if common == 0 then none else some common)
  unfolding compute_drift_math
  compute_drift_math-overlap current bvs = ground (arith, overlap-length current bvs)
