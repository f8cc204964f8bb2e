-- ===== src/Worker/Beat.antt =====
-- src/backend/worker/beat.py: the sweep of runs whose worker is gone, and the query for runs whose
-- traces are to be cleaned up. A comparison with NULL does not hold.
pub mod Swept
use crucible.Base.{
  ℕ, ◌-◌, Bool, false, ◌&&◌, ◌||◌, List, Option, none, some, ◌==◌, ltb, leb, take, filter,
  if◌then◌else◌,
}
use crucible.Db.Run.{
  EvaluationRun, RunStatus, is_status, ErrorMessage, heartbeat_lost, no_heartbeat,
}
use crucible.Db.Table.{update, rowcount}
use crucible.Db.Models.{World}

-- `column < cutoff`
abbrev pub is_before : Option ℕ → ℕ → Bool
is_before none cutoff = false
is_before (some t) cutoff = ltb t cutoff

-- `column.is_(None)`
abbrev pub is_null : Option ℕ → Bool
is_null t = elim t [ none ↦ Bool.true | some _ ↦ false ]

module _ {F : Type 0} where
  abbrev pub has_lost_heartbeat : (cutoff : ℕ) → EvaluationRun F → Bool
  has_lost_heartbeat cutoff r =
      is_status r.status RunStatus.running && is_before r.last_heartbeat_at cutoff

  abbrev pub never_had_heartbeat : (cutoff : ℕ) → EvaluationRun F → Bool
  never_had_heartbeat cutoff r =
      is_status r.status RunStatus.running
      && is_null r.last_heartbeat_at
      && is_before r.started_at cutoff

  abbrev pub fail_run : (now : ℕ) → ErrorMessage → EvaluationRun F → EvaluationRun F
  fail_run now message r = record r {
    status = RunStatus.failed;
    error_message = some message;
    updated_at = now;
  }

  -- `_sweep_zombie_runs_async`: the two updates are committed if either matched a row
  unfoldable pub sweep_zombie_runs : (timeout_secs now : ℕ) → World F → World F
  sweep_zombie_runs timeout_secs now w =
      let cutoff = now - timeout_secs in
      let runs1 = update (has_lost_heartbeat cutoff) (fail_run now heartbeat_lost) w.runs in
      let runs2 =
        update (never_had_heartbeat cutoff) (fail_run now (no_heartbeat timeout_secs)) runs1 in
      if leb 1 (rowcount (has_lost_heartbeat cutoff) w.runs)
        || leb 1 (rowcount (never_had_heartbeat cutoff) runs1)
      then record w { runs = runs2 }
      else w

  abbrev pub is_orphan : (cutoff : ℕ) → EvaluationRun F → Bool
  is_orphan cutoff r =
      (is_status r.status RunStatus.failed || is_status r.status RunStatus.cancelled)
      && ltb r.updated_at cutoff
      && r.total_scenarios == 0

  -- the query of `_cleanup_orphaned_traces_async`, with its batch of ten
  unfoldable pub orphan_runs : (now : ℕ) → World F → List (EvaluationRun F)
  orphan_runs now w = take 10 (filter (is_orphan (now - 3600)) w.runs)
