-- ===== src/Api/Baseline.antt =====
-- src/backend/api/routes/evaluation.py: `set_golden_baseline` and `list_evaluation_runs`.
use crucible.Base.{
  ℕ, Bool, true, false, not, List, Option, none, some, ◌==◌, ◌&&◌, ◌||◌, if◌then◌else◌, find?,
  Floats, any,
}
use crucible.Db.Run.{EvaluationRun, RunStatus, is_status}
use crucible.Db.Table.{update}
use crucible.Db.Order.{page}
use crucible.Db.Models.{World, User}
use crucible.Api.Http.{
  Response, ok, http_exception, run_not_found, only_completed_baseline, score_too_low,
  internal_server_error,
}
use crucible.Api.Evaluation.{has_id, is_owned, update_run}

module _ {F : Type 0} where
  -- the baselines of an agent configuration in a tenant
  abbrev pub is_baseline_of : (tenant_id agent_id : ℕ) → EvaluationRun F → Bool
  is_baseline_of tenant_id agent_id r =
      r.agent_config_id == agent_id && r.tenant_id == tenant_id && r.is_baseline

  -- `update(EvaluationRun).where(…, is_baseline == True).values(is_baseline=False)`: the rows that
  -- were baselines in `seen`, the tables when the statement runs, lose the mark in `w`
  abbrev pub unset_baselines : (tenant_id agent_id now : ℕ) → (seen w : World F) → World F
  unset_baselines tenant_id agent_id now seen w = record w {
    runs =
        update (λ r. any (λ s. s.id == r.id && is_baseline_of tenant_id agent_id s) seen.runs)
          (λ r. record r { is_baseline = false; updated_at = now }) w.runs;
  }

  abbrev pub pin : (run_id now : ℕ) → World F → World F
  pin run_id now = update_run run_id (λ r. record r { is_baseline = true; updated_at = now })

  -- The query sorts by `created_at` alone; rows with one time come in an order that the database is
  -- free to choose, which `arrange` stands for.
  unfoldable pub list_evaluation_runs :
      (arrange : List (EvaluationRun F) → List (EvaluationRun F))
      → User
      → (skip limit : ℕ) → World F
      → List (EvaluationRun F)
  list_evaluation_runs arrange current_user skip limit w =
      page (λ r. r.created_at) (λ r. r.tenant_id == current_user.tenant_id) skip limit
        (arrange w.runs)

module _ ⦃fl : Floats⦄ where
  open fl use {Float, decimal, lt, eq}

  -- `not run.avg_score or run.avg_score < 70`
  abbrev pub lacks_score : Option Float → Bool
  lacks_score none = true
  lacks_score (some score) = eq score (decimal 0 0) || lt score (decimal 70 0)

  -- One transaction at the isolation READ COMMITTED: each statement sees what others have committed
  -- by then. `read` are the tables when the run is selected, `seen` when the former baselines are
  -- unset, and `w` when the mark is written and all is committed. The rows unset are locked from
  -- then on; an update that meets no row raises, and the transaction is rolled back.
  unfoldable pub set_golden_baseline :
      ℕ
      → User
      → (now : ℕ) → (read seen w : World Float) → Response (EvaluationRun Float) × World Float
  set_golden_baseline run_id current_user now read seen w =
      elim (find? (is_owned run_id current_user) read.runs) [
        | none ↦ (http_exception 404 run_not_found, w)
        | some run ↦
            if not (is_status run.status RunStatus.completed)
            then (http_exception 400 only_completed_baseline, w)
            else if lacks_score run.avg_score
            then (http_exception 400 score_too_low, w)
            else elim (find? (has_id run_id) w.runs) [
              | none ↦ (http_exception 500 internal_server_error, w)
              | some row ↦ (
                ok (record row { is_baseline = true; updated_at = now }),
                pin run_id now
                    (unset_baselines current_user.tenant_id run.agent_config_id now seen w),
              )
            ]
      ]
