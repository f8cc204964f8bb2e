-- ===== src/Lifecycle/WorkerRefines.antt =====
-- The transactions of the worker (src/backend/worker/tasks.py) and of the beat process
-- (src/backend/worker/beat.py) are allowed changes of the table of runs.
use crucible.Base.{
  ℕ, ◌-◌, ◌≡◌, refl, Bool, true, false, Option, some, arith, ◌==◌, ◌||◌, Floats, Bool-cases,
  Option-cases, if◌then◌else◌, inl, inr, find?, ==_sound,
}
use crucible.Db.Run.{
  EvaluationRun, RunStatus, ErrorMessage, is_terminal, is_status, heartbeat_lost, no_heartbeat,
}
use crucible.Db.Table.{update, rowcount}
use crucible.Db.Models.{World}
use crucible.Agents.State.{EvaluationState}
use crucible.Api.Evaluation.{has_id}
use crucible.Worker.Result.{ok}
use crucible.Worker.Persist.{persist_final_state, summarise}
use crucible.Worker.Persist.Commit.{persist-runs}
use crucible.Worker.Claim.{
  claim, is_claimable, is_finishable, record_task_id, commit_terminal, heartbeat,
}
use crucible.Worker.Beat.{sweep_zombie_runs, has_lost_heartbeat, never_had_heartbeat, fail_run}
use crucible.Lifecycle.Rows.{
  StatusStep, stay, start, finish, overwrite, RowStep, rows, RowStep-stay, RowStep-status,
  Rows-update, Rows-update-update, All-of, is_status-running,
}
use crucible.Lifecycle.ApiRefines.{Changes, Changes-refl, update_run-Change}

claimed :
    (b : Bool) (s : RunStatus)
    → b ≡ true
    → is_status s RunStatus.pending ≡ true
    → StatusStep b s RunStatus.running
claimed b RunStatus.pending e h = start e
claimed b RunStatus.running e h = cc
claimed b RunStatus.completed e h = cc
claimed b RunStatus.failed e h = cc
claimed b RunStatus.cancelled e h = cc

finished :
    (b : Bool) (s s' : RunStatus)
    → b ≡ true
    → (is_status s RunStatus.running || is_status s RunStatus.cancelled) ≡ true
    → is_terminal s' ≡ true
    → StatusStep b s s'
finished b RunStatus.running s' q h t = finish t
finished b RunStatus.cancelled s' q h t = overwrite q t
finished b RunStatus.pending s' q h t = cc
finished b RunStatus.completed s' q h t = cc
finished b RunStatus.failed s' q h t = cc

failed_running :
    (b : Bool) (s : RunStatus)
    → is_status s RunStatus.running ≡ true
    → StatusStep b s RunStatus.failed
failed_running b s h = rw (is_status-running s h) (finish refl)

module _ {F : Type 0} (enqueued : ℕ → Bool) where
  claim-runs :
      (run_id now : ℕ) (w w' : World F)
      → claim run_id now w ≡ some w'
      → w'.runs
        ≡ update
            (is_claimable run_id)
            (λ r. record r { status = RunStatus.running; updated_at = now })
            w.runs
  unfolding claim
  claim-runs run_id now w w' e = ground arith

  pub claim-Change :
      (run_id now : ℕ) (w w' : World F)
      → enqueued run_id ≡ true
      → claim run_id now w ≡ some w'
      → Changes enqueued w w'
  claim-Change run_id now w w' q e = rw (claim-runs run_id now w w' e) (
      rows (
        Rows-update enqueued (is_claimable run_id) _ w.runs (
          All-of _ w.runs (λ x h.
            let found : (x.id == run_id) ≡ true = ground arith in
            RowStep-status enqueued x _ (refl, refl, refl, refl, refl, refl, refl)
              (claimed (enqueued x.id) x.status (rw (==_sound x.id run_id found) q)
                (ground arith))))))

  pub record_task_id-Change :
      (run_id now : ℕ) (task_id : Option ℕ) (w : World F)
      → Changes enqueued w (record_task_id run_id now task_id w)
  unfolding record_task_id
  record_task_id-Change run_id now task_id w =
      update_run-Change enqueued run_id
        (λ x. record x { celery_task_id = task_id; updated_at = now }) w
        (λ x _. RowStep-status enqueued x _ (refl, refl, refl, refl, refl, refl, refl) stay)

  pub heartbeat-Change :
      (run_id now : ℕ) (w : World F) → Changes enqueued w (heartbeat run_id now w)
  unfolding heartbeat
  heartbeat-Change run_id now w = elim (Option-cases (find? (has_id run_id) w.runs)) [
    | inl e ↦ rw (e, heartbeat) (Changes-refl enqueued w)
    | inr (run, e) ↦
        rw (e, heartbeat)
          (elim (Bool-cases (is_status run.status RunStatus.running)) [
            | inl on ↦ rw on (
                update_run-Change enqueued run_id
                  (λ x. record x { last_heartbeat_at = some now; updated_at = now }) w
                  (λ x _.
                    RowStep-status enqueued x _ (refl, refl, refl, refl, refl, refl, refl) stay))
            | inr off ↦ rw off (Changes-refl enqueued w)
          ])
  ]

  pub commit_terminal-Change :
      (run_id now : ℕ) (status : RunStatus) (message : Option ErrorMessage) (w : World F)
      → enqueued run_id ≡ true
      → is_terminal status ≡ true
      → Changes enqueued w (commit_terminal run_id now status message w)
  unfolding commit_terminal
  commit_terminal-Change run_id now status message w q t =
      elim (Bool-cases (rowcount (is_finishable run_id) w.runs == 0)) [
        | inl e ↦ rw e (Changes-refl enqueued w)
        | inr e ↦ rw e (
            rows (
              Rows-update enqueued (is_finishable run_id) _ w.runs (
                All-of _ w.runs (λ x h.
                  RowStep-status enqueued x _ (refl, refl, refl, refl, refl, refl, refl)
                    (let found : (x.id == run_id) ≡ true = ground arith in
                      finished (enqueued x.id) x.status status (rw (==_sound x.id run_id found) q)
                        (ground arith) t)))))
      ]

  expired :
      (x y : EvaluationRun F) (now : ℕ) (message : ErrorMessage)
      → y ≡ fail_run now message x
      → is_status x.status RunStatus.running ≡ true
      → RowStep enqueued x y
  expired x y now message e h = rw e (
      RowStep-status enqueued x _ (refl, refl, refl, refl, refl, refl, refl)
        (failed_running (enqueued x.id) x.status h))

  swept :
      (cutoff now : ℕ) (lost silent : ErrorMessage) (x : EvaluationRun F)
      → let y = if has_lost_heartbeat cutoff x then fail_run now lost x else x in
        RowStep enqueued x (if never_had_heartbeat cutoff y then fail_run now silent y else y)
  swept cutoff now lost silent x = elim (Bool-cases (has_lost_heartbeat cutoff x)) [
    | inl a ↦ rw a (expired x _ now lost refl (ground arith))
    | inr a ↦ rw a (elim (Bool-cases (never_had_heartbeat cutoff x)) [
      | inl b ↦ rw b (expired x _ now silent refl (ground arith))
      | inr b ↦ rw b (RowStep-stay enqueued x)
    ])
  ]

  committed_if :
      (b : Bool) (w w' : World F) → Changes enqueued w w' → Changes enqueued w (if b then w' else w)
  committed_if true w w' h = h
  committed_if false w w' h = Changes-refl enqueued w

  pub sweep-Change :
      (timeout_secs now : ℕ) (w : World F)
      → Changes enqueued w (sweep_zombie_runs timeout_secs now w)
  unfolding sweep_zombie_runs
  sweep-Change timeout_secs now w = committed_if _ w _ (
      rows (
        Rows-update-update enqueued (has_lost_heartbeat (now - timeout_secs))
          (never_had_heartbeat (now - timeout_secs)) _ _ w.runs
          (All-of _ w.runs
            (swept (now - timeout_secs) now heartbeat_lost (no_heartbeat timeout_secs)))))

module _ ⦃fl : Floats⦄ (enqueued : ℕ → Bool) where
  open fl use {Float}

  pub persist-Change :
      (uuid : ℕ → ℕ) (now run_id : ℕ) (final : EvaluationState Float) (w w' : World Float)
      → persist_final_state uuid now run_id final w ≡ ok w'
      → Changes enqueued w w'
  persist-Change uuid now run_id final w w' e =
      let (t, xs, runs) = persist-runs uuid now run_id final w w' e in
      rw runs (
        rows (
          Rows-update enqueued (has_id run_id) (summarise now final t xs) w.runs (
            All-of _ w.runs (λ x _. record {
              id = refl;
              tenant_id = refl;
              agent_config_id = refl;
              started_at = refl;
              balanced = λ h. omega arith;
              status = stay;
            }))))
