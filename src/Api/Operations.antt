-- ===== src/Api/Operations.antt =====
-- src/backend/api/routes/operations.py, behind the dependency `CurrentAdmin`.
use crucible.Base.{
  ℕ, suc, String, Bool, true, false, List, [], ◌∷◌, Option, none, some, ◌==◌, ◌&&◌, filter, count,
  length, Floats, if◌then◌else◌,
}
use crucible.Db.Run.{EvaluationRun, RunStatus, is_status, DriftProfile, empty, success, type_error}
use crucible.Db.Models.{World, User}
use crucible.Worker.Result.{Result, ok, raised}
use crucible.Db.Order.{page}

-- `drift_profile.isnot(None)`
abbrev pub has_profile : {F : Type 0} → EvaluationRun F → Bool
has_profile r = elim r.drift_profile [ none ↦ false | some _ ↦ true ]

-- one entry of the chart
pub record DriftPoint (F : Type 0) : Type 0 where
  pub run_id : ℕ
  pub run_name : String
  pub drift_score : F
  pub band : String
  pub overlap_count : ℕ
  pub created_at : ℕ
  pub x : ℕ

pub record Summary (F : Type 0) : Type 0 where
  pub avg_drift_score : Option F
  pub anomalous_runs : ℕ
  pub total_drift_runs : ℕ
  pub baseline_count : ℕ

module _ {F : Type 0} where
  -- the completed runs of the tenant with a profile
  abbrev pub has_drift : (tenant_id : ℕ) → EvaluationRun F → Bool
  has_drift tenant_id r =
      r.tenant_id == tenant_id && is_status r.status RunStatus.completed && has_profile r

  abbrev pub point_of : ℕ → EvaluationRun F → Option (DriftProfile F) → List (DriftPoint F)
  point_of i run (some (success score band overlap_count _)) =
      record {
        run_id = run.id;
        run_name = run.name;
        drift_score = score;
        band = band;
        overlap_count = overlap_count;
        created_at = run.created_at;
        x = i;
      }
      ∷ []
  point_of i run _ = []

  -- the loop over `enumerate(runs)`, which skips a run without a score
  unfoldable pub points : ℕ → List (EvaluationRun F) → List (DriftPoint F)
  points i [] = []
  points i (run ∷ runs) = prepend (point_of i run run.drift_profile) (points (suc i) runs)
    where
      prepend : List (DriftPoint F) → List (DriftPoint F) → List (DriftPoint F)
      prepend [] ps = ps
      prepend (p ∷ _) ps = p ∷ ps

  unfoldable pub get_drift_overview : User → (limit : ℕ) → World F → List (DriftPoint F)
  unfolding points
  get_drift_overview current_user limit w =
      points 0 (page (λ r. r.created_at) (has_drift current_user.tenant_id) 0 limit w.runs)

module _ ⦃fl : Floats⦄ where
  open fl use {Float, decimal, lt, eq}

  -- `r.drift_profile and score > 0.25`: an empty dictionary is false, and `None > 0.25` raises
  abbrev pub is_anomalous : DriftProfile Float → Result Bool
  is_anomalous empty = ok false
  is_anomalous (success score _ _ _) = ok (lt (decimal 25 2) score)
  is_anomalous _ = raised type_error

  unfoldable pub count_anomalous : List (EvaluationRun Float) → Result ℕ
  count_anomalous [] = ok 0
  count_anomalous (r ∷ rs) =
      let rest = count_anomalous rs in
      elim r.drift_profile [
        | none ↦ rest
        | some profile ↦ elim (is_anomalous profile) [
          | raised e ↦ raised e
          | ok b ↦ elim rest [ raised e ↦ raised e | ok n ↦ ok (if b then suc n else n) ]
        ]
      ]

  -- the scores that are not NULL
  abbrev pub avg_scores : List (EvaluationRun Float) → List Float
  avg_scores [] = []
  avg_scores (r ∷ rs) =
      let rest = avg_scores rs in elim r.avg_score [ none ↦ rest | some x ↦ x ∷ rest ]

  -- `round(avg_score, 1) if avg_score else None`
  abbrev pub shown : (round : Float → Float) → Option Float → Option Float
  shown round none = none
  shown round (some x) = if eq x (decimal 0 0) then none else some (round x)

  -- `avg` is the average of the database, which is NULL for no values, and `round` keeps one digit
  unfoldable pub get_operations_summary :
      (avg : List Float → Option Float) (round : Float → Float)
      → User
      → World Float
      → Result (Summary Float)
  unfolding count_anomalous
  get_operations_summary avg round current_user w =
      let all_drift_runs = filter (has_drift current_user.tenant_id) w.runs in
      elim (count_anomalous all_drift_runs) [
        | raised e ↦ raised e
        | ok anomalous_count ↦ ok (record {
          avg_drift_score = shown round (avg (avg_scores all_drift_runs));
          anomalous_runs = anomalous_count;
          total_drift_runs = length all_drift_runs;
          baseline_count =
              count (λ r. r.tenant_id == current_user.tenant_id && r.is_baseline) w.runs;
        })
      ]
