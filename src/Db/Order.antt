-- ===== src/Db/Order.antt =====
-- SQL's `order_by(key.desc()).offset(skip).limit(limit)`; rows with one key keep their order.
pub mod First
pub mod Pages
use crucible.Base.{
  ℕ, zero, suc, ◌≡◌, Bool, true, List, [], ◌∷◌, ltb, take, drop, filter, Option, none, some, All,
  Bool-cases, inl, inr, if◌then◌else◌,
}

module _ {A : Type 0} where
  -- insertion sort, where `after x y` puts x behind y
  module _ (after : A → A → Bool) where
    unfoldable pub insert_by : A → List A → List A
    insert_by x [] = x ∷ []
    insert_by x (y ∷ ys) = let rest = insert_by x ys in if after x y then y ∷ rest else x ∷ y ∷ ys

    unfoldable pub order_by : List A → List A
    unfolding insert_by
    order_by [] = []
    order_by (x ∷ xs) = insert_by x (order_by xs)

  -- `scalar_one_or_none` of a query with `limit(1)`
  abbrev pub first : List A → Option A
  first [] = none
  first (x ∷ _) = some x

  module _ (key : A → ℕ) where
    abbrev pub order_by_desc : List A → List A
    order_by_desc = order_by (λ x y. ltb (key x) (key y))

    abbrev pub order_by_asc : List A → List A
    order_by_asc = order_by (λ x y. ltb (key y) (key x))

    -- one page of the rows that match
    abbrev pub page : (A → Bool) → (skip limit : ℕ) → List A → List A
    page p skip limit xs = take limit (drop skip (order_by_desc (filter p xs)))

  module _ (P : A → Type 0) where
    pub All-take : (n : ℕ) (xs : List A) → All P xs → All P (take n xs)
    All-take zero xs h = tt
    All-take (suc n) [] h = tt
    All-take (suc n) (x ∷ xs) (p, h) = (p, All-take n xs h)

    pub All-drop : (n : ℕ) (xs : List A) → All P xs → All P (drop n xs)
    All-drop zero xs h = h
    All-drop (suc n) [] h = tt
    All-drop (suc n) (x ∷ xs) (p, h) = All-drop n xs h

    module _ (after : A → A → Bool) where
      All-insert_by : (x : A) (ys : List A) → P x → All P ys → All P (insert_by after x ys)
      unfolding insert_by
      All-insert_by x [] p h = (p, tt)
      All-insert_by x (y ∷ ys) p (q, h) = elim (Bool-cases (after x y)) [
        | inl later ↦ rw later (q, All-insert_by x ys p h)
        | inr sooner ↦ rw sooner (p, (q, h))
      ]

      pub All-order_by : (xs : List A) → All P xs → All P (order_by after xs)
      unfolding order_by
      All-order_by [] h = tt
      All-order_by (x ∷ xs) (p, h) = All-insert_by x (order_by after xs) p (All-order_by xs h)

  pub All-filter-passes : (p : A → Bool) (xs : List A) → All (λ x. p x ≡ true) (filter p xs)
  All-filter-passes p [] = tt
  All-filter-passes p (x ∷ xs) = elim (Bool-cases (p x)) [
    | inl pass ↦ rw pass (pass, All-filter-passes p xs)
    | inr fails ↦ rw fails (All-filter-passes p xs)
  ]

  -- The rows of a page match.
  pub All-page :
      (key : A → ℕ) (p : A → Bool) (skip limit : ℕ) (xs : List A)
      → All (λ x. p x ≡ true) (page key p skip limit xs)
  All-page key p skip limit xs =
      All-take _ limit _
        (All-drop _ skip _ (All-order_by _ _ (filter p xs) (All-filter-passes p xs)))
