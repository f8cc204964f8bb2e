-- ===== src/Lifecycle/Baselines.antt =====
-- The golden baseline of an agent configuration is unique: `set_golden_baseline` of
-- src/backend/api/routes/evaluation.py, and all other transactions.
use crucible.Base.{
  ℕ, ◌≤◌, ◌≡◌, Bool, true, false, not, ◌&&◌, List, [], ◌∷◌, some, arith, ◌==◌, count, find?,
  find?-passes, Floats, All, if◌then◌else◌, Bool-cases, Option-cases, inl, inr, any, ==_refl,
}
use crucible.Db.Run.{EvaluationRun, RunStatus, is_status}
use crucible.Db.Table.{update}
use crucible.Db.Models.{World, User}
use crucible.Api.Evaluation.{has_id, is_owned}
use crucible.Api.Baseline.{is_baseline_of, unset_baselines, pin, lacks_score, set_golden_baseline}
use crucible.Lifecycle.Rows.{All-map}
use crucible.Lifecycle.Unique.{IdsUnique, found_is_only}

module _ {F : Type 0} where
  -- What two updates leave of `q` is bounded by the rows from which it can come.
  count-update-update :
      (q r p s : EvaluationRun F → Bool) (f g : EvaluationRun F → EvaluationRun F)
      (xs : List (EvaluationRun F))
      → All
          (λ x. let y = if p x then f x else x in q (if s y then g y else y) ≡ true → r x ≡ true)
          xs
      → count q (update s g (update p f xs)) ≤ count r xs
  count-update-update q r p s f g [] h = omega arith
  count-update-update q r p s f g (x ∷ xs) (k, h) =
      ground (arith, k, count-update-update q r p s f g xs h)

  module _ (t a run_id now : ℕ) where
    unset : EvaluationRun F → EvaluationRun F
    unset x = record x { is_baseline = false; updated_at = now }

    pinned : EvaluationRun F → EvaluationRun F
    pinned x = record x { is_baseline = true; updated_at = now }

    -- the row after both updates, where the first one hits the rows of `p`
    repin : (EvaluationRun F → Bool) → EvaluationRun F → EvaluationRun F
    repin p x = let y = if p x then unset x else x in if has_id run_id y then pinned y else y

    -- of the agent's rows, only the pinned one is a baseline
    repin-same :
        (p : EvaluationRun F → Bool) (x : EvaluationRun F)
        → (is_baseline_of t a x ≡ true → p x ≡ true)
        → is_baseline_of t a (repin p x) ≡ true
        → has_id run_id x ≡ true
    unfolding repin unset pinned
    repin-same p x k h = ground (arith, k)

    -- a row of another agent or tenant is no new baseline
    repin-other :
        (p : EvaluationRun F → Bool) (t' a' : ℕ) (x : EvaluationRun F)
        → (a == a' && t == t') ≡ false
        → (has_id run_id x ≡ true → (x.tenant_id ≡ t) × (x.agent_config_id ≡ a))
        → is_baseline_of t' a' (repin p x) ≡ true
        → is_baseline_of t' a' x ≡ true
    unfolding repin unset pinned
    repin-other p t' a' x ne own h = ground arith

  -- at most one baseline for each agent configuration of each tenant
  abbrev pub IsPinnedOnce : World F → Type 0
  IsPinnedOnce w = (t a : ℕ) → count (is_baseline_of t a) w.runs ≤ 1

  same_target :
      (t a t' a' : ℕ)
      → (a == a' && t == t') ≡ true
      → (x : EvaluationRun F) → is_baseline_of t' a' x ≡ true
      → is_baseline_of t a x ≡ true
  same_target t a t' a' same x h = ground arith

  -- the rows of the table that are baselines are among those that the table gives
  abbrev was_baseline : (t a : ℕ) → List (EvaluationRun F) → EvaluationRun F → Bool
  was_baseline t a seen r = any (λ s. s.id == r.id && is_baseline_of t a s) seen

  seen_itself :
      (t a : ℕ) (xs : List (EvaluationRun F))
      → All (λ x. is_baseline_of t a x ≡ true → was_baseline t a xs x ≡ true) xs
  seen_itself t a [] = tt
  seen_itself t a (x ∷ xs) = (
    λ h. let self = ==_refl x.id in ground (arith, self, h),
    All-map _ _ xs (λ y k h. let later = k h in ground (arith, later)) (seen_itself t a xs),
  )

  repinned :
      (run_id now : ℕ) (user : User) (run : EvaluationRun F) (w : World F)
      → IdsUnique w.runs
      → find? (is_owned run_id user) w.runs ≡ some run
      → IsPinnedOnce w
      → IsPinnedOnce (pin run_id now (unset_baselines user.tenant_id run.agent_config_id now w w))
  unfolding repin unset pinned
  repinned run_id now user run w ids found once t' a' =
      let t = user.tenant_id in
      let a = run.agent_config_id in
      let p = was_baseline t a w.runs in
      elim (Bool-cases (a == a' && t == t')) [
        | inl same ↦ omega (
          arith,
          ids run_id,
          count-update-update (is_baseline_of t' a') (has_id run_id) p (has_id run_id)
              (unset t a run_id now) (pinned t a run_id now) w.runs
              (All-map _ _ w.runs
                (λ x k h.
                  repin-same t a run_id now p x k
                    (same_target t a t' a' same (repin t a run_id now p x) h))
                (seen_itself t a w.runs)),
        )
        | inr other ↦ omega (
          arith,
          once t' a',
          count-update-update (is_baseline_of t' a') (is_baseline_of t' a') p (has_id run_id)
              (unset t a run_id now) (pinned t a run_id now) w.runs
              (All-map _ _ w.runs
                (λ x only h. repin-other t a run_id now p t' a' x other (λ e. owned x (only e)) h)
                (found_is_only (has_id run_id) (is_owned run_id user) w.runs (λ x h. ground arith)
                  (ids run_id) found)),
        )
      ]
    where
      owned :
          (x : EvaluationRun F)
          → x ≡ run
          → (x.tenant_id ≡ user.tenant_id) × (x.agent_config_id ≡ run.agent_config_id)
      owned x e =
          let own : is_owned run_id user run ≡ true =
            find?-passes (is_owned run_id user) w.runs found in
          rw e (ground arith)

module _ ⦃fl : Floats⦄ (w : World fl.Float) where
  -- In a table with unique keys where every agent configuration of every tenant has at most one
  -- baseline, `set_golden_baseline` leaves at most one, whatever it returns, if no other
  -- transaction commits while it runs.
  pub set_golden_baseline-IsPinnedOnce :
      (run_id : ℕ) (user : User) (now : ℕ)
      → IdsUnique w.runs
      → IsPinnedOnce w
      → IsPinnedOnce (set_golden_baseline run_id user now w w w).1
  unfolding set_golden_baseline
  set_golden_baseline-IsPinnedOnce run_id user now ids once =
      elim (Option-cases (find? (is_owned run_id user) w.runs)) [
        | inl e ↦ rw (e, set_golden_baseline) once
        | inr (run, e) ↦
            rw (e, set_golden_baseline)
              (elim (Bool-cases (not (is_status run.status RunStatus.completed))) [
                | inl open_run ↦ rw open_run once
                | inr done ↦ rw done (elim (Bool-cases (lacks_score run.avg_score)) [
                  | inl low ↦ rw low once
                  | inr good ↦ rw good (elim (Option-cases (find? (has_id run_id) w.runs)) [
                    | inl gone ↦ rw gone once
                    | inr (row, found) ↦ rw found (repinned run_id now user run w ids e once)
                  ])
                ])
              ])
      ]
