-- ===== src/Lifecycle/ApiRefines.antt =====
-- The transactions of the API's handlers (src/backend/api/routes/evaluation.py) are allowed changes
-- of the table of runs.
use crucible.Base.{
  ℕ, ◌≡◌, refl, Bool, true, false, arith, ◌==◌, ◌&&◌, not, leb, count, Floats, Bool-cases,
  Option-cases, if◌then◌else◌, inl, inr, find?, any,
}
use crucible.Db.Run.{EvaluationRun, RunStatus, is_terminal, is_status}
use crucible.Db.Models.{World, User}
use crucible.Api.Http.{
  Delay, accepted, refused, Enqueue, enqueued as enqueued_as, not_enqueued, not_recorded,
}
use crucible.Api.Evaluation.{
  EvaluationRunCreate, has_id, is_owned, active_count, update_run, new_run, insert_run,
  record_enqueue, cancel_evaluation_run, delete_evaluation_run, mark_unqueued, note_celery_task,
  mark_cancelled,
}
use crucible.Lifecycle.Rows.{
  stay, refuse, cancel, RowStep, Change, rows, append, delete_id, RowStep-stay, RowStep-status,
  Rows-refl, Rows-update, Rows-update-update, All-of,
}
use crucible.Api.Baseline.{is_baseline_of, lacks_score, set_golden_baseline}

module _ {F : Type 0} where
  module _ (enqueued : ℕ → Bool) where
    abbrev pub Changes : World F → World F → Type 0
    Changes w w' = Change enqueued w.runs w'.runs

    pub Changes-refl : (w : World F) → Changes w w
    Changes-refl w = rows (Rows-refl enqueued w.runs)

    pub insert_run-Change :
        (run_in : EvaluationRunCreate F) (user : User) (new_id now : ℕ) (w : World F)
        → count (has_id new_id) w.runs ≡ 0
        → enqueued new_id ≡ false
        → Changes w (insert_run run_in user new_id now w).1
    unfolding insert_run
    insert_run-Change run_in user new_id now w fresh unused =
        elim (Option-cases (
          find? (λ a. a.id == run_in.agent_config_id && a.tenant_id == user.tenant_id)
            w.agent_configs)) [
              | inl e ↦ rw (e, insert_run) (Changes-refl w)
              | inr (agent, e) ↦
                  rw (e, insert_run)
                    (elim (Bool-cases (leb 2 (active_count user.tenant_id w))) [
                      | inl full ↦ rw full (Changes-refl w)
                      | inr free ↦ rw free (
                          append (new_run run_in agent.id user.tenant_id new_id now) refl refl refl
                            fresh unused (ground arith))
                    ])
            ]

    -- an update of the row with one key that keeps the row's status
    pub update_run-Change :
        (run_id : ℕ) (f : EvaluationRun F → EvaluationRun F) (w : World F)
        → ((x : EvaluationRun F) → has_id run_id x ≡ true → RowStep enqueued x (f x))
        → Changes w (update_run run_id f w)
    update_run-Change run_id f w h =
        rows (Rows-update enqueued (has_id run_id) f w.runs (All-of _ w.runs h))

    pub record_enqueue-Change :
        (outcome : Enqueue) (now : ℕ) (r : EvaluationRun F) (w : World F)
        → Changes w (record_enqueue outcome now r w).1
    unfolding record_enqueue
    record_enqueue-Change (enqueued_as k) now r w =
        update_run-Change r.id (note_celery_task k now) w
          (λ x _. RowStep-status enqueued x _ (refl, refl, refl, refl, refl, refl, refl) stay)
    record_enqueue-Change (not_enqueued e) now r w =
        update_run-Change r.id (mark_unqueued e now) w
          (λ x _. RowStep-status enqueued x _ (refl, refl, refl, refl, refl, refl, refl) refuse)
    record_enqueue-Change (not_recorded k stored marked e) now r w =
        update_run-Change r.id _ w (λ x _. step stored marked x)
      where
        step :
            (stored marked : Bool) (x : EvaluationRun F)
            → let y : EvaluationRun F = if stored then note_celery_task k now x else x in
              RowStep enqueued x (if marked then mark_unqueued e now y else y)
        step true true x =
            RowStep-status enqueued x _ (refl, refl, refl, refl, refl, refl, refl) refuse
        step true false x =
            RowStep-status enqueued x _ (refl, refl, refl, refl, refl, refl, refl) stay
        step false true x =
            RowStep-status enqueued x _ (refl, refl, refl, refl, refl, refl, refl) refuse
        step false false x = RowStep-stay enqueued x

    pub cancel-Change :
        (run_id : ℕ) (user : User) (now : ℕ) (read w : World F)
        → Changes w (cancel_evaluation_run run_id user now read w).1
    unfolding cancel_evaluation_run
    cancel-Change run_id user now read w =
        elim (Option-cases (find? (is_owned run_id user) read.runs)) [
          | inl e ↦ rw (e, cancel_evaluation_run) (Changes-refl w)
          | inr (run, e) ↦
              rw (e, cancel_evaluation_run)
                (elim (Bool-cases (is_terminal run.status)) [
                  | inl over ↦ rw over (Changes-refl w)
                  | inr live ↦ rw live (elim (Option-cases (find? (has_id run_id) w.runs)) [
                    | inl gone ↦ rw gone (Changes-refl w)
                    | inr (row, found) ↦ rw found (
                        update_run-Change run_id (mark_cancelled now) w (λ x _.
                          RowStep-status enqueued x _ (refl, refl, refl, refl, refl, refl, refl)
                            cancel))
                  ])
                ])
        ]

    pub delete-Change :
        (run_id : ℕ) (user : User) (delay : Delay) (read w : World F)
        → Changes w (delete_evaluation_run run_id user delay read w).1
    unfolding delete_evaluation_run
    delete-Change run_id user (refused x) read w =
        elim (Option-cases (find? (is_owned run_id user) read.runs)) [
          | inl e ↦ rw (e, delete_evaluation_run) (Changes-refl w)
          | inr (run, e) ↦ rw (e, delete_evaluation_run) (Changes-refl w)
        ]
    delete-Change run_id user (accepted k) read w =
        elim (Option-cases (find? (is_owned run_id user) read.runs)) [
          | inl e ↦ rw (e, delete_evaluation_run) (Changes-refl w)
          | inr (run, e) ↦ rw (e, delete_evaluation_run) (delete_id run_id)
        ]

module _ ⦃fl : Floats⦄ (enqueued : ℕ → Bool) where
  open fl use {Float}

  pub set_golden_baseline-Change :
      (run_id : ℕ) (user : User) (now : ℕ) (read seen w : World Float)
      → Changes enqueued w (set_golden_baseline run_id user now read seen w).1
  unfolding set_golden_baseline
  set_golden_baseline-Change run_id user now read seen w =
      elim (Option-cases (find? (is_owned run_id user) read.runs)) [
        | inl e ↦ rw (e, set_golden_baseline) (Changes-refl enqueued w)
        | inr (run, e) ↦
            rw (e, set_golden_baseline)
              (elim (Bool-cases (not (is_status run.status RunStatus.completed))) [
                | inl open_run ↦ rw open_run (Changes-refl enqueued w)
                | inr done ↦ rw done (elim (Bool-cases (lacks_score run.avg_score)) [
                  | inl low ↦ rw low (Changes-refl enqueued w)
                  | inr good ↦ rw good (elim (Option-cases (find? (has_id run_id) w.runs)) [
                    | inl gone ↦ rw gone (Changes-refl enqueued w)
                    | inr (row, found) ↦
                        let p : EvaluationRun Float → Bool = λ r.
                          any
                            (λ s.
                              s.id == r.id && is_baseline_of user.tenant_id run.agent_config_id s)
                            seen.runs in
                        rw found (
                          rows (
                            Rows-update-update enqueued p (has_id run_id) _ _ w.runs (
                              All-of _ w.runs
                                (λ x. keeps (p x) (has_id run_id (unset (p x) x)) x))))
                  ])
                ])
              ])
      ]
    where
      unset : Bool → EvaluationRun Float → EvaluationRun Float
      unset b x = if b then record x { is_baseline = false; updated_at = now } else x

      keeps :
          (a b : Bool) (x : EvaluationRun Float)
          → let y : EvaluationRun Float =
              if a then record x { is_baseline = false; updated_at = now } else x in
            RowStep enqueued x (if b then record y { is_baseline = true; updated_at = now } else y)
      keeps true true x =
          RowStep-status enqueued x _ (refl, refl, refl, refl, refl, refl, refl) stay
      keeps true false x =
          RowStep-status enqueued x _ (refl, refl, refl, refl, refl, refl, refl) stay
      keeps false true x =
          RowStep-status enqueued x _ (refl, refl, refl, refl, refl, refl, refl) stay
      keeps false false x = RowStep-stay enqueued x
