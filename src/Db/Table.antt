-- ===== src/Db/Table.antt =====
-- What the code uses of SQL: `select … where …` for the first row, and `update … where … values …`
-- with its row count. A table is the list of its rows.
use crucible.Base.{
  ℕ, suc, ◌≤◌, ◌≡◌, refl, ap, Bool, true, false, List, [], ◌∷◌, arith, count, length, if◌then◌else◌,
  find?, some, ◌<◌, Bool-cases, inl, inr, sym, ◌∙◌,
}

module _ {ℓ} {A : Type ℓ} where
  -- `update(T).where(p).values(f)`
  abbrev pub update : (A → Bool) → (A → A) → List A → List A
  update p f [] = []
  update p f (x ∷ xs) = (if p x then f x else x) ∷ update p f xs

  -- `delete(row)`, by its key
  abbrev pub delete : (A → Bool) → List A → List A
  delete p [] = []
  delete p (x ∷ xs) = let rest = delete p xs in if p x then rest else x ∷ rest

  -- `update_result.rowcount`
  abbrev pub rowcount : (A → Bool) → List A → ℕ
  rowcount = count

  pub length-update : (p : A → Bool) (f : A → A) (xs : List A) → length (update p f xs) ≡ length xs
  length-update p f [] = refl
  length-update p f (x ∷ xs) = ap suc (length-update p f xs)

  -- An update that turns no row into one that `q` counts does not raise the count of `q`.
  pub count-update-le :
      (q p : A → Bool) (f : A → A) (xs : List A)
      → ((x : A) → p x ≡ true → q (f x) ≡ true → q x ≡ true)
      → count q (update p f xs) ≤ count q xs
  count-update-le q p f [] h = omega arith
  count-update-le q p f (x ∷ xs) h = ground (arith, h x, count-update-le q p f xs h)

  pub count-delete-le : (q p : A → Bool) (xs : List A) → count q (delete p xs) ≤ count q xs
  count-delete-le q p [] = omega arith
  count-delete-le q p (x ∷ xs) = ground (arith, count-delete-le q p xs)

  -- A count of zero means that the update matches no row, and so changes nothing.
  pub update-eq_of_rowcount :
      (p : A → Bool) (f : A → A) (xs : List A) → rowcount p xs ≡ 0 → update p f xs ≡ xs
  update-eq_of_rowcount p f [] h = refl
  update-eq_of_rowcount p f (x ∷ xs) h = ground (arith, update-eq_of_rowcount p f xs)

  -- After an update that takes each matched row out of `p`, no row matches.
  pub count-update_gone :
      (p : A → Bool) (f : A → A) (xs : List A)
      → ((x : A) → p x ≡ true → p (f x) ≡ false)
      → count p (update p f xs) ≡ 0
  count-update_gone p f [] h = refl
  count-update_gone p f (x ∷ xs) h = ground (arith, h x, count-update_gone p f xs h)

  found_first :
      (q : A → Bool) (y : A) (ys : List A) {x : A} → find? q (y ∷ ys) ≡ some x → q y ≡ true → y ≡ x
  found_first q y ys found first =
      let head : find? q (y ∷ ys) ≡ some y = rw first refl in ground (arith, head)

  found_later :
      (q : A → Bool) (y : A) (ys : List A) {x : A}
      → find? q (y ∷ ys) ≡ some x
      → q y ≡ false
      → find? q ys ≡ some x
  found_later q y ys found later = sym (rw later refl) ∙ found

  -- A query on fields that an update leaves alone finds the row that it found before.
  pub find?-update :
      (q p : A → Bool) (f : A → A) (xs : List A) {x : A}
      → ((y : A) → q (f y) ≡ q y)
      → find? q xs ≡ some x
      → p x ≡ true
      → find? q (update p f xs) ≡ some (f x)
  find?-update q p f [] keeps found matched = ground arith
  find?-update q p f (y ∷ ys) keeps found matched = elim (Bool-cases (q y)) [
    | inl first ↦
        let same = found_first q y ys found first in
        rw (ap p same ∙ matched, keeps y, first) (ap (λ z. some (f z)) same)
    | inr later ↦
        let rest = find?-update q p f ys keeps (found_later q y ys found later) matched in
        elim (Bool-cases (p y)) [
          | inl hit ↦ rw (hit, keeps y, later) rest
          | inr miss ↦ rw (miss, later) rest
        ]
  ]

  pub rowcount_found :
      (q p : A → Bool) (xs : List A) {x : A} → find? q xs ≡ some x → p x ≡ true → 0 < rowcount p xs
  rowcount_found q p [] found matched = ground arith
  rowcount_found q p (y ∷ ys) found matched = elim (Bool-cases (q y)) [
    | inl first ↦ let hit = ap p (found_first q y ys found first) ∙ matched in ground (arith, hit)
    | inr later ↦
        let rest = rowcount_found q p ys (found_later q y ys found later) matched in
        ground (arith, rest)
  ]
