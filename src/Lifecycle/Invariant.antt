-- ===== src/Lifecycle/Invariant.antt =====
-- What holds of the tables after any transactions of any processes.
use crucible.Base.{
  ℕ, ◌≤◌, ◌≡◌, refl, Bool, true, ◌||◌, List, [], ◌∷◌, none, arith, ◌==◌, count, count-append,
  Floats, All, All-append, ==_sound, Bool-cases, inl, inr,
}
use crucible.Db.Run.{EvaluationRun, RunStatus, is_active, is_status}
use crucible.Db.Table.{delete, count-delete-le}
use crucible.Db.Models.{World}
use crucible.Api.Evaluation.{has_id, is_active_of, active_count}
use crucible.Lifecycle.{Step, Reach, here, next, is_enqueued}
use crucible.Lifecycle.Rows.{
  StatusStep, stay, start, refuse, cancel, finish, overwrite, RowStep, Rows, Change, rows, append,
  delete_id, IsBalanced, All-map,
}
use crucible.Lifecycle.Unique.{IdsUnique}
use crucible.Lifecycle.Refines.{Step-Change, Step-is_enqueued}

-- the run has been in the hands of a worker
abbrev pub is_executed : RunStatus → Bool
is_executed s = is_status s RunStatus.running || is_status s RunStatus.completed

StatusStep-active :
    {b : Bool} {s s' : RunStatus} → StatusStep b s s' → is_active s' ≡ true → is_active s ≡ true
StatusStep-active stay h = h
StatusStep-active (start e) h = refl
StatusStep-active refuse h = cc
StatusStep-active cancel h = cc
StatusStep-active (finish e) h = refl
StatusStep-active {s' = s'} (overwrite q e) h = ground arith

StatusStep-executed :
    {b : Bool} {s s' : RunStatus}
    → StatusStep b s s'
    → (is_executed s ≡ true → b ≡ true)
    → is_executed s' ≡ true
    → b ≡ true
StatusStep-executed stay k h = k h
StatusStep-executed (start e) k h = e
StatusStep-executed refuse k h = cc
StatusStep-executed cancel k h = cc
StatusStep-executed (finish e) k h = k refl
StatusStep-executed (overwrite q e) k h = q

module _ {F : Type 0} where
  pub count-Rows :
      (R : EvaluationRun F → EvaluationRun F → Type 0) (q : EvaluationRun F → Bool)
      (xs ys : List (EvaluationRun F))
      → ((x y : EvaluationRun F) → R x y → q y ≡ true → q x ≡ true)
      → Rows R xs ys
      → count q ys ≤ count q xs
  count-Rows R q [] [] k h = omega arith
  count-Rows R q (x ∷ xs) (y ∷ ys) k h = ground (arith, k x y h.0, count-Rows R q xs ys k h.1)
  count-Rows R q [] (y ∷ ys) k h = absurd h
  count-Rows R q (x ∷ xs) [] k h = absurd h

  All-Rows :
      (R : EvaluationRun F → EvaluationRun F → Type 0) (P : EvaluationRun F → Type 0)
      (xs ys : List (EvaluationRun F))
      → ((x y : EvaluationRun F) → R x y → P x → P y)
      → Rows R xs ys
      → All P xs
      → All P ys
  All-Rows R P [] [] k h a = tt
  All-Rows R P (x ∷ xs) (y ∷ ys) k h a = (k x y h.0 a.0, All-Rows R P xs ys k h.1 a.1)
  All-Rows R P [] (y ∷ ys) k h a = absurd h
  All-Rows R P (x ∷ xs) [] k h a = absurd h

  All-delete :
      (P : EvaluationRun F → Type 0) (p : EvaluationRun F → Bool) (xs : List (EvaluationRun F))
      → All P xs
      → All P (delete p xs)
  All-delete P p [] a = tt
  All-delete P p (x ∷ xs) (h, a) = elim (Bool-cases (p x)) [
    | inl e ↦ rw e (All-delete P p xs a)
    | inr e ↦ rw e (h, All-delete P p xs a)
  ]

  one-row : (q : EvaluationRun F → Bool) (r : EvaluationRun F) → count q (r ∷ []) ≤ 1
  one-row q r = ground arith

  module _ (enqueued : ℕ → Bool) where
    Change-IdsUnique :
        (xs : List (EvaluationRun F)) {ys : List (EvaluationRun F)}
        → Change enqueued xs ys
        → IdsUnique xs
        → IdsUnique ys
    Change-IdsUnique xs {ys} (rows h) u i =
        omega (
          arith,
          u i,
          count-Rows (RowStep enqueued) (has_id i) xs ys (λ x y st e. rw (← st.id) e) h,
        )
    Change-IdsUnique xs (append r _ _ _ fresh _ _) u i = elim (Bool-cases (r.id == i)) [
      | inl same ↦
          rw (← ==_sound r.id i same)
            (omega (arith, count-append (has_id r.id) xs (r ∷ []), fresh, one-row (has_id r.id) r))
      | inr other ↦ ground (arith, count-append (has_id i) xs (r ∷ []), u i)
    ]
    Change-IdsUnique xs (delete_id run_id) u i =
        omega (arith, u i, count-delete-le (has_id i) (has_id run_id) xs)

    Change-slots :
        (t : ℕ) (xs : List (EvaluationRun F)) {ys : List (EvaluationRun F)}
        → Change enqueued xs ys
        → count (is_active_of t) xs ≤ 2
        → count (is_active_of t) ys ≤ 2
    Change-slots t xs {ys} (rows h) u = omega (
      arith,
      count-Rows (RowStep enqueued) (is_active_of t) xs ys
          (λ x y st e. ground (arith, StatusStep-active st.status)) h,
    )
    Change-slots t xs (append r pending _ _ _ _ free) u = elim (Bool-cases (r.tenant_id == t)) [
      | inl same ↦ rw (← ==_sound r.tenant_id t same) (
          omega (
            arith,
            count-append (is_active_of r.tenant_id) xs (r ∷ []),
            free,
            one-row (is_active_of r.tenant_id) r,
          ))
      | inr other ↦ ground (arith, count-append (is_active_of t) xs (r ∷ []))
    ]
    Change-slots t xs (delete_id run_id) u =
        omega (arith, count-delete-le (is_active_of t) (has_id run_id) xs)

    Change-IsBalanced :
        (xs : List (EvaluationRun F)) {ys : List (EvaluationRun F)}
        → Change enqueued xs ys
        → All IsBalanced xs
        → All IsBalanced ys
    Change-IsBalanced xs {ys} (rows h) a =
        All-Rows (RowStep enqueued) IsBalanced xs ys (λ x y st b. st.balanced b) h a
    Change-IsBalanced xs (append r _ _ b _ _ _) a = All-append IsBalanced xs (r ∷ []) a (b, tt)
    Change-IsBalanced xs (delete_id run_id) a = All-delete IsBalanced (has_id run_id) xs a

    abbrev IsUnstarted : EvaluationRun F → Type 0
    IsUnstarted r = r.started_at ≡ none

    Change-IsUnstarted :
        (xs : List (EvaluationRun F)) {ys : List (EvaluationRun F)}
        → Change enqueued xs ys
        → All IsUnstarted xs
        → All IsUnstarted ys
    Change-IsUnstarted xs {ys} (rows h) a =
        All-Rows (RowStep enqueued) IsUnstarted xs ys (λ x y st b. rw st.started_at b) h a
    Change-IsUnstarted xs (append r _ e _ _ _ _) a = All-append IsUnstarted xs (r ∷ []) a (e, tt)
    Change-IsUnstarted xs (delete_id run_id) a = All-delete IsUnstarted (has_id run_id) xs a

    -- a run that was executed had been enqueued
    abbrev IsTraced : EvaluationRun F → Type 0
    IsTraced r = is_executed r.status ≡ true → enqueued r.id ≡ true

    Change-IsTraced :
        (xs : List (EvaluationRun F)) {ys : List (EvaluationRun F)}
        → Change enqueued xs ys
        → All IsTraced xs
        → All IsTraced ys
    Change-IsTraced xs {ys} (rows h) a =
        All-Rows (RowStep enqueued) IsTraced xs ys
          (λ x y st b e. rw st.id (StatusStep-executed st.status b e)) h a
    Change-IsTraced xs (append r pending _ _ _ _ _) a =
        All-append IsTraced xs (r ∷ []) a ((λ e. ground arith), tt)
    Change-IsTraced xs (delete_id run_id) a = All-delete IsTraced (has_id run_id) xs a

module _ ⦃fl : Floats⦄ where
  open fl use {Float}

  -- The invariant: keys are unique, no tenant has more than two active runs, the counters of each
  -- run add up, `started_at` is NULL in every row, and only runs whose task is in the broker are
  -- running or completed.
  pub record IsConsistent (w : World Float) : Type 0 where
    pub ids : IdsUnique w.runs
    pub slots : (tenant_id : ℕ) → active_count tenant_id w ≤ 2
    pub balanced : All IsBalanced w.runs
    pub unstarted : All (λ r. r.started_at ≡ none) w.runs
    pub traced : All (λ r. is_executed r.status ≡ true → is_enqueued r.id w ≡ true) w.runs

  -- Every transaction of every process keeps the tables consistent.
  pub Step-IsConsistent : {w w' : World Float} → Step w w' → IsConsistent w → IsConsistent w'
  Step-IsConsistent {w} {w'} st c =
      let e = λ (i : ℕ). is_enqueued i w in
      let ch = Step-Change st in
      record {
        ids = Change-IdsUnique e w.runs ch c.ids;
        slots = λ t. Change-slots e t w.runs ch (c.slots t);
        balanced = Change-IsBalanced e w.runs ch c.balanced;
        unstarted = Change-IsUnstarted e w.runs ch c.unstarted;
        traced =
            All-map _ _ w'.runs (λ r h x. Step-is_enqueued r.id st (h x))
              (Change-IsTraced e w.runs ch c.traced);
      }

  -- From consistent tables, whatever transactions of any processes happen, in any order, the tables
  -- stay consistent: the keys of the runs are unique, no tenant has more than two active runs, the
  -- counters of each run add up, no run has a start time, and only runs whose task was handed to
  -- the broker are running or completed.
  pub Reach-IsConsistent : {w w' : World Float} → Reach w w' → IsConsistent w → IsConsistent w'
  Reach-IsConsistent here c = c
  Reach-IsConsistent (next r st) c = Step-IsConsistent st (Reach-IsConsistent r c)
