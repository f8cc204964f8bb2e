-- ===== src/Db/Order/First.antt =====
-- The row that a query with `limit(1)` gives.
use mathlib.Core.List.{Memᴰ}
use mathlib.Core.List.Memᴰ.{head, tail}
use crucible.Base.{
  ℕ, ◌≡◌, refl, sym, ◌∙◌, Bool, true, false, List, [], ◌∷◌, ltb, filter, none, some, arith, take,
  All, Bool-cases, Option-cases, inl, inr, if◌then◌else◌,
}
use crucible.Db.Order.{insert_by, order_by, first, order_by_asc, order_by_desc, page}

module _ {A : Type 0} where
  pub first-take : (xs : List A) → first (take 1 xs) ≡ first xs
  first-take [] = refl
  first-take (x ∷ xs) = refl

  -- a row that passes, and before which no row that passes comes
  pub record IsFirst (after : A → A → Bool) (p : A → Bool) (xs : List A) (r : A) : Type 0 where
    pub is_row : Memᴰ r xs
    pub passes : p r ≡ true
    pub none_before : All (λ x. p x ≡ true → after r x ≡ false) xs

  module _ (after : A → A → Bool) where
    first-insert_by :
        (x : A) (ys : List A)
        → first (insert_by after x ys)
          ≡ elim (first ys) [ none ↦ some x | some y ↦ if after x y then some y else some x ]
    unfolding insert_by
    first-insert_by x [] = refl
    first-insert_by x (y ∷ ys) = ground arith

    module _ (irreflexive : (x : A) → after x x ≡ false)
        (asymmetric : (x y : A) → after x y ≡ true → after y x ≡ false)
        (transitive : (x y z : A) → after x y ≡ false → after y z ≡ false → after x z ≡ false)
        (p : A → Bool) where
      widen :
          {xs : List A} {r x : A}
          → after r x ≡ false
          → IsFirst after p xs r
          → IsFirst after p (x ∷ xs) r
      widen h f = record {
        is_row = tail f.is_row;
        passes = f.passes;
        none_before = (λ _. h, f.none_before);
      }

      skip :
          {xs : List A} {r x : A} → p x ≡ false → IsFirst after p xs r → IsFirst after p (x ∷ xs) r
      skip h f = record {
        is_row = tail f.is_row;
        passes = f.passes;
        none_before = (λ q. absurd (ground arith), f.none_before);
      }

      behind :
          (x y : A) (xs : List A)
          → after x y ≡ false
          → All (λ z. p z ≡ true → after y z ≡ false) xs
          → All (λ z. p z ≡ true → after x z ≡ false) xs
      behind x y [] h k = tt
      behind x y (z ∷ zs) h (k, ks) = (λ q. transitive x y z h (k q), behind x y zs h ks)

      first-keeps :
          (x : A) (xs : List A)
          → p x ≡ false
          → first (order_by after (filter p (x ∷ xs))) ≡ first (order_by after (filter p xs))
      first-keeps x xs h = rw h refl

      first-adds :
          (x : A) (xs : List A)
          → p x ≡ true
          → first (order_by after (filter p (x ∷ xs)))
            ≡ elim (first (order_by after (filter p xs))) [
              | none ↦ some x
              | some y ↦ if after x y then some y else some x
            ]
      unfolding order_by
      first-adds x xs h = rw h (first-insert_by x (order_by after (filter p xs)))

      none_passes :
          (xs : List A) → first (order_by after (filter p xs)) ≡ none → All (λ x. p x ≡ false) xs
      none_passes [] h = tt
      none_passes (x ∷ xs) h = elim (Bool-cases (p x)) [
        | inl pass ↦ absurd (ground (arith, first-adds x xs pass))
        | inr fail ↦ (fail, none_passes xs (ground (arith, first-keeps x xs fail)))
      ]

      unreached :
          (r : A) (xs : List A)
          → All (λ x. p x ≡ false) xs
          → All (λ x. p x ≡ true → after r x ≡ false) xs
      unreached r [] h = tt
      unreached r (x ∷ xs) (h, hs) = (λ q. absurd (ground arith), unreached r xs hs)

      -- the first of the sorted rows that pass comes before all of them
      pub first-order_by :
          (xs : List A) (r : A)
          → first (order_by after (filter p xs)) ≡ some r
          → IsFirst after p xs r
      unfolding order_by
      first-order_by [] r h = absurd (ground arith)
      first-order_by (x ∷ xs) r h = elim (Bool-cases (p x)) [
        | inr fail ↦ skip fail (first-order_by xs r (ground (arith, first-keeps x xs fail)))
        | inl pass ↦
            let added = first-adds x xs pass in
            elim (Option-cases (first (order_by after (filter p xs)))) [
              | inl e ↦
                  let same : r ≡ x = ground (arith, added, e) in
                  rw same (record {
                    is_row = head refl;
                    passes = pass;
                    none_before = (λ _. irreflexive x, unreached x xs (none_passes xs e));
                  })
              | inr (y, e) ↦ elim (Bool-cases (after x y)) [
                | inl later ↦
                    let same : r ≡ y = ground (arith, added, e) in
                    rw same (widen (asymmetric x y later) (first-order_by xs y e))
                | inr sooner ↦
                    let same : r ≡ x = ground (arith, added, e) in
                    rw same (record {
                      is_row = head refl;
                      passes = pass;
                      none_before = (
                        λ _. irreflexive x,
                        behind x y xs sooner (first-order_by xs y e).none_before,
                      );
                    })
              ]
            ]
      ]

  module _ (key : A → ℕ) (p : A → Bool) (xs : List A) (r : A) where
    -- The row of a page of one is a row that passes, and none that passes has a greater key.
    pub first-page :
        first (page key p 0 1 xs) ≡ some r → IsFirst (λ x y. ltb (key x) (key y)) p xs r
    first-page h =
        first-order_by (λ x y. ltb (key x) (key y)) (λ x. ground arith) (λ x y h. ground arith)
          (λ x y z h k. ground arith) p xs r
          (sym (first-take (order_by_desc key (filter p xs))) ∙ h)

    -- The first row in ascending order is a row that passes, and none that passes has a smaller key.
    pub first-order_by_asc :
        first (order_by_asc key (filter p xs)) ≡ some r
        → IsFirst (λ x y. ltb (key y) (key x)) p xs r
    first-order_by_asc =
        first-order_by (λ x y. ltb (key y) (key x)) (λ x. ground arith) (λ x y h. ground arith)
          (λ x y z h k. ground arith) p xs r

    pub none-page : first (page key p 0 1 xs) ≡ none → All (λ x. p x ≡ false) xs
    none-page h =
        none_passes (λ x y. ltb (key x) (key y)) (λ x. ground arith) (λ x y h. ground arith)
          (λ x y z h k. ground arith) p xs (sym (first-take (order_by_desc key (filter p xs))) ∙ h)
