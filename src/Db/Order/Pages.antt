-- ===== src/Db/Order/Pages.antt =====
-- What the pages of an ordered query hold together.
use mathlib.Core.Path.{subst}
use mathlib.Core.List.{Memᴰ}
use mathlib.Core.List.Memᴰ.{head, tail}
use crucible.Base.{
  ℕ, zero, suc, ◌*◌, ◌≡◌, ◌≤◌, refl, ap, sym, ◌∙◌, Bool, true, List, [], ◌∷◌, ltb, filter, arith,
  take, drop, length, length-drop, drop-drop, All, Bool-cases, inl, inr, ◌↔◌, ◌⊎◌,
}
use crucible.Db.Order.{insert_by, order_by, order_by_desc, page, All-take, All-drop, All-order_by}

module _ {A : Type 0} where
  filter-row : (p : A → Bool) {x : A} (ys : List A) → Memᴰ x ys → p x ≡ true → Memᴰ x (filter p ys)
  filter-row p [] m h = elim m [ ]
  filter-row p {x} (y ∷ ys) (head e) h =
      let pass : p y ≡ true = sym (ap p e) ∙ h in rw pass (head e)
  filter-row p {x} (y ∷ ys) (tail m) h = elim (Bool-cases (p y)) [
    | inl pass ↦ rw pass (tail (filter-row p ys m h))
    | inr fail ↦ rw fail (filter-row p ys m h)
  ]

  All-row : (P : A → Type 0) {x : A} (ys : List A) → All P ys → Memᴰ x ys → P x
  All-row P [] h m = elim m [ ]
  All-row P (y ∷ ys) (h, _) (head e) = subst P (sym e) h
  All-row P (y ∷ ys) (_, hs) (tail m) = All-row P ys hs m

  widen : {P Q : A → Type 0} (f : (x : A) → P x → Q x) (ys : List A) → All P ys → All Q ys
  widen f [] h = tt
  widen f (y ∷ ys) (h, hs) = (f y h, widen f ys hs)

  each_is_row : (ys : List A) → All (λ x. Memᴰ x ys) ys
  each_is_row [] = tt
  each_is_row (y ∷ ys) = (head refl, widen (λ x m. tail m) ys (each_is_row ys))

  -- what passes the filter is a row that passes
  rows-filter :
      (Q : A → Type 0) (p : A → Bool) (ys : List A)
      → All Q ys
      → All (λ x. Q x × (p x ≡ true)) (filter p ys)
  rows-filter Q p [] h = tt
  rows-filter Q p (y ∷ ys) (h, hs) = elim (Bool-cases (p y)) [
    | inl pass ↦ rw pass ((h, pass), rows-filter Q p ys hs)
    | inr fail ↦ rw fail (rows-filter Q p ys hs)
  ]

  module _ (after : A → A → Bool) where
    insert_by_new : (x : A) (ys : List A) → Memᴰ x (insert_by after x ys)
    unfolding insert_by
    insert_by_new x [] = head refl
    insert_by_new x (y ∷ ys) = elim (Bool-cases (after x y)) [
      | inl later ↦ rw later (tail (insert_by_new x ys))
      | inr sooner ↦ rw sooner (head refl)
    ]

    insert_by_old : (x : A) {z : A} (ys : List A) → Memᴰ z ys → Memᴰ z (insert_by after x ys)
    unfolding insert_by
    insert_by_old x [] m = elim m [ ]
    insert_by_old x (y ∷ ys) (head e) = elim (Bool-cases (after x y)) [
      | inl later ↦ rw later (head e)
      | inr sooner ↦ rw sooner (tail (head e))
    ]
    insert_by_old x (y ∷ ys) (tail m) = elim (Bool-cases (after x y)) [
      | inl later ↦ rw later (tail (insert_by_old x ys m))
      | inr sooner ↦ rw sooner (tail (tail m))
    ]

    order_by-row : {z : A} (ys : List A) → Memᴰ z ys → Memᴰ z (order_by after ys)
    unfolding order_by
    order_by-row [] m = elim m [ ]
    order_by-row {z} (y ∷ ys) (head e) =
        subst (λ x. Memᴰ x (insert_by after y (order_by after ys))) (sym e)
          (insert_by_new y (order_by after ys))
    order_by-row (y ∷ ys) (tail m) = insert_by_old y (order_by after ys) (order_by-row ys m)

  take-or-drop : {x : A} (n : ℕ) (ys : List A) → Memᴰ x ys → Memᴰ x (take n ys) ⊎ Memᴰ x (drop n ys)
  take-or-drop zero ys m = inr m
  take-or-drop (suc n) [] m = elim m [ ]
  take-or-drop (suc n) (y ∷ ys) (head e) = inl (head e)
  take-or-drop (suc n) (y ∷ ys) (tail m) = elim (take-or-drop n ys m) [
    | inl h ↦ inl (tail h)
    | inr h ↦ inr h
  ]

  -- each row stands on one of the pages
  some_page :
      (limit fuel : ℕ) {x : A} (ys : List A)
      → 1 ≤ limit
      → length ys ≤ fuel
      → Memᴰ x ys
      → (k : ℕ) × Memᴰ x (take limit (drop (k * limit) ys))
  some_page limit zero [] one few m = elim m [ ]
  some_page limit zero (y ∷ ys) one few m = absurd (omega (arith, few))
  some_page limit (suc fuel) {x} ys one few m =
      let zeroth : 0 ≡ 0 * limit = omega arith in
      elim (take-or-drop limit ys m) [
        | inl here ↦ (0, subst (λ n. Memᴰ x (take limit (drop n ys))) zeroth here)
        | inr there ↦
            let fewer : length (drop limit ys) ≤ fuel =
              omega (arith, length-drop limit ys, one, few) in
            let (k, on) = some_page limit fuel (drop limit ys) one fewer there in
            (
              suc k,
              subst (λ zs. Memᴰ x (take limit zs))
                  (drop-drop (k * limit) limit (suc k * limit) ys (omega arith)) on,
            )
      ]

  module _ (key : A → ℕ) (p : A → Bool) (xs : List A) where
    -- A row stands on a page exactly if it passes.
    pub page_iff :
        (limit : ℕ)
        → 1 ≤ limit
        → (x : A)
        → ((k : ℕ) × Memᴰ x (page key p (k * limit) limit xs)) ↔ (Memᴰ x xs × (p x ≡ true))
    page_iff limit one x = (
      λ (k, on).
          let found = rows-filter (λ x. Memᴰ x xs) p xs (each_is_row xs) in
          let sorted = All-order_by _ (λ x y. ltb (key x) (key y)) (filter p xs) found in
          All-row _ _ (All-take _ limit _ (All-drop _ (k * limit) _ sorted)) on,
      λ (row, passes).
          let sorted = order_by_desc key (filter p xs) in
          some_page limit (length sorted) sorted one (omega arith)
            (order_by-row _ (filter p xs) (filter-row p xs row passes)),
    )
