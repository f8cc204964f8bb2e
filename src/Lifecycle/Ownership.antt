-- ===== src/Lifecycle/Ownership.antt =====
-- The atomic acquisition of a run in `_execute_evaluation_run_async`
-- (src/backend/worker/tasks.py): at most one worker ever gets a run.
use crucible.Base.{
  ℕ, ◌≡◌, Bool, true, false, List, ◌∷◌, [], none, some, arith, ◌==◌, count, count-append, Floats,
  Bool-cases, inl, inr, ==_sound,
}
use crucible.Db.Run.{EvaluationRun, RunStatus, is_status}
use crucible.Db.Table.{count-update_gone, count-delete-le}
use crucible.Db.Models.{World}
use crucible.Api.Evaluation.{has_id}
use crucible.Worker.Claim.{claim, is_claimable}
use crucible.Lifecycle.{Step, Reach, here, next, is_enqueued}
use crucible.Lifecycle.Rows.{
  StatusStep, stay, start, refuse, cancel, finish, overwrite, RowStep, Change, rows, append,
  delete_id,
}
use crucible.Lifecycle.Refines.{Step-Change, Step-is_enqueued}
use crucible.Lifecycle.Invariant.{IsConsistent, Step-IsConsistent, count-Rows}

abbrev is_pending : RunStatus → Bool
is_pending s = is_status s RunStatus.pending

StatusStep-pending :
    {b : Bool} {s s' : RunStatus} → StatusStep b s s' → is_pending s' ≡ true → is_pending s ≡ true
StatusStep-pending stay h = h
StatusStep-pending (start e) h = cc
StatusStep-pending refuse h = cc
StatusStep-pending cancel h = cc
StatusStep-pending {s' = s'} (finish e) h = ground arith
StatusStep-pending {s' = s'} (overwrite q e) h = ground arith

module _ {F : Type 0} where
  claim-gone :
      (i now : ℕ) (w w' : World F) → claim i now w ≡ some w' → count (is_claimable i) w'.runs ≡ 0
  unfolding claim
  claim-gone i now w w' e = ground (
    arith,
    count-update_gone (is_claimable i)
        (λ r. record r { status = RunStatus.running; updated_at = now }) w.runs
        (λ x h. ground arith),
  )

  claim-none : (i now : ℕ) (w : World F) → count (is_claimable i) w.runs ≡ 0 → claim i now w ≡ none
  unfolding claim
  claim-none i now w h = ground arith

  Change-gone :
      (enqueued : ℕ → Bool) (i : ℕ) (xs : List (EvaluationRun F)) {ys : List (EvaluationRun F)}
      → Change enqueued xs ys
      → enqueued i ≡ true
      → count (is_claimable i) xs ≡ 0
      → count (is_claimable i) ys ≡ 0
  Change-gone enqueued i xs {ys} (rows h) q z = omega (
    arith,
    count-Rows (RowStep enqueued) (is_claimable i) xs ys
        (λ x y st e. ground (arith, st.id, StatusStep-pending st.status)) h,
  )
  Change-gone enqueued i xs (append r _ _ _ _ unused _) q z = elim (Bool-cases (r.id == i)) [
    | inl same ↦ absurd (clash (rw (==_sound r.id i same) at unused) q)
    | inr other ↦ ground (arith, count-append (is_claimable i) xs (r ∷ []))
  ]
    where
      clash : {b : Bool} → b ≡ false → b ≡ true → ⊥
      clash p q = cc
  Change-gone enqueued i xs (delete_id j) q z =
      omega (arith, count-delete-le (is_claimable i) (has_id j) xs)

module _ ⦃fl : Floats⦄ (i : ℕ) where
  open fl use {Float}

  stays_gone :
      {w' v : World Float}
      → Reach w' v
      → IsConsistent w'
      → is_enqueued i w' ≡ true
      → count (is_claimable i) w'.runs ≡ 0
      → (is_enqueued i v ≡ true) × (count (is_claimable i) v.runs ≡ 0)
  stays_gone here c q z = (q, z)
  stays_gone (next {u = u} r st) c q z =
      let (q', z') = stays_gone r c q z in
      (Step-is_enqueued i st q', Change-gone _ i u.runs (Step-Change st) q' z')

module _ ⦃fl : Floats⦄ (i now now' : ℕ) {w w' : World fl.Float} where
  -- In consistent tables, once a worker has claimed an enqueued run, every later attempt to claim
  -- that run fails, whatever transactions of any processes happen in between: no run is claimed
  -- twice, also if the broker delivers its task again.
  pub claim_once :
      {v : World fl.Float}
      → IsConsistent w
      → is_enqueued i w ≡ true
      → claim i now w ≡ some w'
      → Reach w' v
      → claim i now' v ≡ none
  claim_once {v} c q e r =
      let st : Step w w' = Step.take_claim i now q e in
      claim-none i now' v
        (stays_gone i r (Step-IsConsistent st c) (Step-is_enqueued i st q)
          (claim-gone i now w w' e)).1
