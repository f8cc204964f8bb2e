-- ===== src/Worker/Beat/Swept.antt =====
-- What the sweep of src/backend/worker/beat.py achieves.
use crucible.Base.{ℕ, ◌+◌, ◌-◌, ◌≡◌, ◌≤◌, refl, List, [], ◌∷◌, some, arith, count, All}
use crucible.Db.Run.{EvaluationRun, RunStatus, heartbeat_lost, no_heartbeat}
use crucible.Db.Table.{update, count-update_gone, count-update-le}
use crucible.Db.Models.{World}
use crucible.Worker.Beat.{has_lost_heartbeat, never_had_heartbeat, fail_run, sweep_zombie_runs}

module _ {F : Type 0} where
  -- the run is not running, or its last heartbeat is not older than the timeout
  pub IsAlive : (timeout_secs now : ℕ) → EvaluationRun F → Type 0
  IsAlive timeout_secs now r =
      (t : ℕ) → r.status ≡ RunStatus.running → r.last_heartbeat_at ≡ some t → now ≤ t + timeout_secs

  none_lost :
      (timeout_secs now : ℕ) (xs : List (EvaluationRun F))
      → count (has_lost_heartbeat (now - timeout_secs)) xs ≡ 0
      → All (IsAlive timeout_secs now) xs
  unfolding IsAlive
  none_lost timeout_secs now [] h = tt
  none_lost timeout_secs now (x ∷ xs) h =
      (λ t s b. ground arith, none_lost timeout_secs now xs (ground arith))

  sweep-count :
      (timeout_secs now : ℕ) (w : World F)
      → count (has_lost_heartbeat (now - timeout_secs)) (sweep_zombie_runs timeout_secs now w).runs
        ≡ 0
  unfolding sweep_zombie_runs
  sweep-count timeout_secs now w =
      let cutoff = now - timeout_secs in
      let runs1 = update (has_lost_heartbeat cutoff) (fail_run now heartbeat_lost) w.runs in
      let gone : count (has_lost_heartbeat cutoff) runs1 ≡ 0 =
        count-update_gone (has_lost_heartbeat cutoff) (fail_run now heartbeat_lost) w.runs
          (λ x h. refl) in
      let kept =
        count-update-le (has_lost_heartbeat cutoff) (never_had_heartbeat cutoff)
          (fail_run now (no_heartbeat timeout_secs)) runs1 (λ x h k. absurd (ground arith)) in
      ground (arith, gone, kept)

  -- After a sweep, no run is running whose last heartbeat is older than the timeout.
  pub sweep_zombie_runs-IsAlive :
      (timeout_secs now : ℕ) (w : World F)
      → All (IsAlive timeout_secs now) (sweep_zombie_runs timeout_secs now w).runs
  sweep_zombie_runs-IsAlive timeout_secs now w =
      none_lost timeout_secs now _ (sweep-count timeout_secs now w)
