-- ===== src/Agents/Evolution/Worst.antt =====
-- Which judgments the evolution node works on: src/backend/agents/evolution.py.
use crucible.Base.{
  ◌≤◌, ◌≡◌, true, List, [], ◌∷◌, filter, length, length-take-le, All, Floats, Bool-cases, inl, inr,
}
use crucible.Db.Order.{All-take, All-filter-passes}
use crucible.Agents.State.{JudgmentData}
use crucible.Agents.Evolution.{
  overall_score, is_failure, insert_by_score, sort_by_score, worst_failures,
}

module _ ⦃fl : Floats⦄ where
  open fl use {Float, lt, decimal}

  module _ (P : JudgmentData Float → Type 0) where
    All-insert_by_score :
        (x : JudgmentData Float) (ys : List (JudgmentData Float))
        → P x
        → All P ys
        → All P (insert_by_score x ys)
    unfolding insert_by_score
    All-insert_by_score x [] p h = (p, tt)
    All-insert_by_score x (y ∷ ys) p (q, h) =
        elim (Bool-cases (lt (overall_score y) (overall_score x))) [
          | inl later ↦ rw later (q, All-insert_by_score x ys p h)
          | inr sooner ↦ rw sooner (p, (q, h))
        ]

    All-sort_by_score : (xs : List (JudgmentData Float)) → All P xs → All P (sort_by_score xs)
    unfolding sort_by_score
    All-sort_by_score [] h = tt
    All-sort_by_score (x ∷ xs) (p, h) =
        All-insert_by_score x (sort_by_score xs) p (All-sort_by_score xs h)

  -- The evolution node works on at most five judgments, each of which failed or has a low score.
  pub worst_failures_fail :
      (js : List (JudgmentData Float))
      → (length (worst_failures js) ≤ 5) × All (λ j. is_failure j ≡ true) (worst_failures js)
  unfolding worst_failures
  worst_failures_fail js = (
    length-take-le 5 _,
    All-take _ 5 _ (All-sort_by_score _ (filter is_failure js) (All-filter-passes is_failure js)),
  )
