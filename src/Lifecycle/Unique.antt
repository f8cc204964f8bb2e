-- ===== src/Lifecycle/Unique.antt =====
-- Rows with unique keys: the row that a query found is the one that an update by key changes.
use crucible.Base.{
  ℕ, ◌≤◌, ◌≡◌, Bool, true, List, [], ◌∷◌, some, arith, count, Bool-cases, inl, inr, find?, All,
}
use crucible.Db.Run.{EvaluationRun}
use crucible.Api.Evaluation.{has_id}

module _ {F : Type 0} where
  -- no two rows have one key
  abbrev pub IdsUnique : List (EvaluationRun F) → Type 0
  IdsUnique xs = (i : ℕ) → count (has_id i) xs ≤ 1

  none-counted :
      (p : EvaluationRun F → Bool) (P : EvaluationRun F → Type 0) (xs : List (EvaluationRun F))
      → count p xs ≡ 0
      → All (λ x. p x ≡ true → P x) xs
  none-counted p P [] h = tt
  none-counted p P (x ∷ xs) h = (λ e. absurd (ground arith), none-counted p P xs (ground arith))

  find?-counted :
      (p q : EvaluationRun F → Bool) (xs : List (EvaluationRun F)) {y : EvaluationRun F}
      → ((x : EvaluationRun F) → q x ≡ true → p x ≡ true)
      → find? q xs ≡ some y
      → 1 ≤ count p xs
  find?-counted p q [] h e = cc
  find?-counted p q (x ∷ xs) {y = y} h e = ground (arith, h x, find?-counted p q xs {y = y} h)

  -- Where at most one row passes `p`, it is the one that a search for a special case found.
  pub found_is_only :
      (p q : EvaluationRun F → Bool) (xs : List (EvaluationRun F)) {y : EvaluationRun F}
      → ((x : EvaluationRun F) → q x ≡ true → p x ≡ true)
      → count p xs ≤ 1
      → find? q xs ≡ some y
      → All (λ x. p x ≡ true → x ≡ y) xs
  found_is_only p q [] h c e = tt
  found_is_only p q (x ∷ xs) {y = y} h c e = elim (Bool-cases (q x)) [
    | inl hit ↦ (λ _. ground arith, none-counted p (λ x. x ≡ y) xs (ground (arith, h x)))
    | inr miss ↦
        let e' : find? q xs ≡ some y = ground arith in
        (
          λ px. absurd (ground (arith, find?-counted p q xs h e')),
          found_is_only p q xs h (ground arith) e',
        )
  ]
