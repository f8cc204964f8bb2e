-- ===== src/Lifecycle/Transitions.antt =====
-- How each transaction of the code can change the status of one run, one of the states of RunStatus in
-- src/backend/db/models/evaluation_run.py.
use crucible.Base.{
  ℕ, ◌≡◌, refl, Bool, true, List, [], ◌∷◌, ◌++◌, Option, none, some, arith, ◌==◌, find?, Floats,
  Bool-cases, inl, inr,
}
use crucible.Db.Run.{EvaluationRun}
use crucible.Db.Table.{delete}
use crucible.Db.Models.{World}
use crucible.Api.Evaluation.{has_id}
use crucible.Lifecycle.{Step, is_enqueued}
use crucible.Lifecycle.Rows.{StatusStep, stay, RowStep, Rows, Change, rows, append, delete_id}
use crucible.Lifecycle.Refines.{Step-Change}

module _ {F : Type 0} (enqueued : ℕ → Bool) (i : ℕ) where
  find?-Rows :
      (xs ys : List (EvaluationRun F)) {r r' : EvaluationRun F}
      → Rows (RowStep enqueued) xs ys
      → find? (has_id i) xs ≡ some r
      → find? (has_id i) ys ≡ some r'
      → RowStep enqueued r r'
  find?-Rows [] [] h e e' = cc
  find?-Rows (x ∷ xs) (y ∷ ys) {r} {r'} h e e' = elim (Bool-cases (x.id == i)) [
    | inl hit ↦
        let ex : x ≡ r = ground arith in
        let ey : y ≡ r' = ground (arith, h.0.id) in rw (← ex, ← ey) h.0
    | inr miss ↦ find?-Rows xs ys h.1 (ground arith) (ground (arith, h.0.id))
  ]
  find?-Rows [] (y ∷ ys) h e e' = absurd h
  find?-Rows (x ∷ xs) [] h e e' = absurd h

  find?-append :
      (xs ys : List (EvaluationRun F)) {r : EvaluationRun F}
      → find? (has_id i) xs ≡ some r
      → find? (has_id i) (xs ++ ys) ≡ some r
  find?-append [] ys e = cc
  find?-append (x ∷ xs) ys {r} e = ground (arith, find?-append xs ys {r = r})

  find?-deleted :
      (j : ℕ) (xs : List (EvaluationRun F))
      → (j == i) ≡ true
      → find? (has_id i) (delete (has_id j) xs) ≡ none
  find?-deleted j [] e = refl
  find?-deleted j (x ∷ xs) e = ground (arith, find?-deleted j xs e)

  -- a row that a deletion leaves is the row that stood there
  find?-delete :
      (j : ℕ) (xs : List (EvaluationRun F)) {r r' : EvaluationRun F}
      → find? (has_id i) xs ≡ some r
      → find? (has_id i) (delete (has_id j) xs) ≡ some r'
      → r ≡ r'
  find?-delete j [] e e' = cc
  find?-delete j (x ∷ xs) {r} {r'} e e' = elim (Bool-cases (j == i)) [
    | inl same ↦
        let gone : find? (has_id i) (delete (has_id j) (x ∷ xs)) ≡ none =
          find?-deleted j (x ∷ xs) same in
        absurd (not_both gone e')
    | inr other ↦ elim (Bool-cases (x.id == i)) [
      | inl hit ↦ ground arith
      | inr miss ↦ find?-delete j xs (ground arith) (ground arith)
    ]
  ]
    where
      not_both : {o : Option (EvaluationRun F)} → o ≡ none → o ≡ some r' → ⊥
      not_both p q = cc

  -- a change of the table moves the status of a row that stays as `StatusStep` allows
  Change-status :
      {xs ys : List (EvaluationRun F)} {r r' : EvaluationRun F}
      → Change enqueued xs ys
      → find? (has_id i) xs ≡ some r
      → find? (has_id i) ys ≡ some r'
      → StatusStep (enqueued r.id) r.status r'.status
  Change-status {xs} {ys} (rows h) e e' = (find?-Rows xs ys h e e').status
  Change-status {xs} {r} {r'} (append n _ _ _ _ _ _) e e' =
      let same : r ≡ r' = ground (arith, find?-append xs (n ∷ []) {r = r} e) in rw (← same) stay
  Change-status {xs} {r} {r'} (delete_id j) e e' = rw (← find?-delete j xs e e') stay

module _ ⦃fl : Floats⦄ {w w' : World fl.Float} (i : ℕ) {r r' : EvaluationRun fl.Float} where
  -- A transaction before and after which a run's row is there leaves its status or moves it along an
  -- edge of `StatusStep`: from pending to running, of an enqueued run; from any state to failed or to
  -- cancelled; from running to any terminal state; from cancelled to any terminal state, of an enqueued
  -- run. So none leads back to pending, and to running leads only the way from pending.
  pub Step-StatusStep :
      Step w w'
      → find? (has_id i) w.runs ≡ some r
      → find? (has_id i) w'.runs ≡ some r'
      → StatusStep (is_enqueued r.id w) r.status r'.status
  Step-StatusStep st e e' = Change-status _ i (Step-Change st) e e'
