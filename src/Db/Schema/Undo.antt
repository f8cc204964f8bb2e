-- ===== src/Db/Schema/Undo.antt =====
-- Commands of a migration that a downgrade takes back: src/backend/db/migrations.
use text.Mathlib.Text.{◌==◌ as str_eq}
use mathlib.Core.Path.{subst}
use crucible.Base.{
  ◌≡◌, ◌∙◌, refl, sym, ap, String, true, false, List, [], ◌∷◌, ◌++◌, some, ◌||◌, arith, Bool-cases,
  Option-cases, inl, inr, str_eq_refl, All,
}
use crucible.Db.Schema.{
  Column, Table, Schema, Op, add_column, drop_column, is_in, has_column, without, columns_of, alter,
  add, drop, apply, run,
}

-- No index and no constraint of the table is on a column that the table does not have.
pub record IsClosed (t : Table) : Type 0 where
  pub constraints :
      (n : String)
      → has_column n t.columns ≡ false
      → without (λ k. is_in (columns_of k) n) t.constraints ≡ t.constraints
  pub indexes :
      (n : String)
      → has_column n t.columns ≡ false
      → without (λ i. is_in i.columns n) t.indexes ≡ t.indexes

has_column-snoc :
    (n : String) (cs : List Column) (c : Column)
    → has_column n (cs ++ c ∷ []) ≡ (has_column n cs || str_eq n c.name)
has_column-snoc n [] c = ground arith
has_column-snoc n (d ∷ cs) c = ground (arith, has_column-snoc n cs c)

absent :
    (n : String) (cs : List Column) (c : Column)
    → has_column n (cs ++ c ∷ []) ≡ false
    → has_column n cs ≡ false
absent n cs c h = ground (arith, h, has_column-snoc n cs c)

without-snoc :
    (cs : List Column) (c : Column)
    → has_column c.name cs ≡ false
    → without (λ d. str_eq c.name d.name) (cs ++ c ∷ []) ≡ cs
without-snoc [] c h = rw (str_eq_refl c.name) refl
without-snoc (d ∷ cs) c h = ground (arith, h, without-snoc cs c)

added :
    (c : Column) (t t' : Table)
    → add c t ≡ some t'
    → (has_column c.name t.columns ≡ false) × (record t { columns = t.columns ++ c ∷ [] } ≡ t')
added c t t' e = elim (Bool-cases (has_column c.name t.columns)) [
  | inl there ↦ absurd (ground (arith, e, there))
  | inr fresh ↦ (fresh, ground (arith, e, fresh))
]

-- adding a column and dropping it
drop-add : (c : Column) (t t' : Table) → IsClosed t → add c t ≡ some t' → drop c.name t' ≡ some t
drop-add c t t' closed e =
    let (fresh, same) = added c t t' e in
    let there : has_column c.name (t.columns ++ c ∷ []) ≡ true =
      ground (arith, has_column-snoc c.name t.columns c, str_eq_refl c.name) in
    subst (λ u. drop c.name u ≡ some t) same
      (rw
        (
          there,
          without-snoc t.columns c fresh,
          closed.constraints c.name fresh,
          closed.indexes c.name fresh,
        )
        refl)

add-IsClosed : (c : Column) (t t' : Table) → IsClosed t → add c t ≡ some t' → IsClosed t'
add-IsClosed c t t' closed e = subst IsClosed (added c t t' e).1 (record {
  constraints = λ n gone. closed.constraints n (absent n t.columns c gone);
  indexes = λ n gone. closed.indexes n (absent n t.columns c gone);
})

alter-add :
    (c : Column) (t : String) (ts ts' : List Table)
    → All IsClosed ts
    → alter t (add c) ts ≡ some ts'
    → (alter t (drop c.name) ts' ≡ some ts) × All IsClosed ts'
alter-add c t [] ts' closed e = absurd (ground (arith, e))
alter-add c t (x ∷ xs) ts' (closed, rest) e = elim (Bool-cases (str_eq t x.name)) [
  | inl here ↦ elim (Option-cases (add c x)) [
    | inl refused ↦ absurd (ground (arith, e, here, refused))
    | inr (x', done) ↦
        let same : x' ∷ xs ≡ ts' = ground (arith, e, here, done) in
        let named : x'.name ≡ x.name = sym (ap (λ u. u.name) (added c x x' done).1) in
        subst (λ us. (alter t (drop c.name) us ≡ some (x ∷ xs)) × All IsClosed us) same
          (
            rw (ap (str_eq t) named ∙ here, drop-add c x x' closed done) refl,
            (add-IsClosed c x x' closed done, rest),
          )
  ]
  | inr there ↦ elim (Option-cases (alter t (add c) xs)) [
    | inl refused ↦ absurd (ground (arith, e, there, refused))
    | inr (xs', done) ↦
        let same : x ∷ xs' ≡ ts' = ground (arith, e, there, done) in
        let (back, closed') = alter-add c t xs xs' rest done in
        subst (λ us. (alter t (drop c.name) us ≡ some (x ∷ xs)) × All IsClosed us) same
          (rw (there, back) refl, (closed, closed'))
  ]
]

-- the commands that add the columns, and those that drop them, the last one first
abbrev pub adds : String → List Column → List Op
adds t [] = []
adds t (c ∷ cs) = add_column t c ∷ adds t cs

abbrev pub drops : String → List Column → List Op
drops t [] = []
drops t (c ∷ cs) = drops t cs ++ drop_column t c.name ∷ []

-- the first command of a migration, and the rest
run-cons :
    (o : Op) (os : List Op) (s s' : Schema)
    → run (o ∷ os) s ≡ some s'
    → (t : Schema) × (apply o s ≡ some t) × (run os t ≡ some s')
unfolding run
run-cons o os s s' e = elim (Option-cases (apply o s)) [
  | inl refused ↦ absurd (ground (arith, e, refused))
  | inr (t, done) ↦ (t, done, ground (arith, e, done))
]

run_one : (o : Op) (s : Schema) → run (o ∷ []) s ≡ apply o s
unfolding run
run_one o s = elim (Option-cases (apply o s)) [
  | inl refused ↦ rw (refused, run) refl
  | inr (t, done) ↦ rw (done, run) refl
]

run-snoc :
    (os : List Op) (o : Op) (s s' : Schema) → run os s ≡ some s' → run (os ++ o ∷ []) s ≡ apply o s'
unfolding run
run-snoc [] o s s' e =
    let same : s ≡ s' = ground (arith, e) in
    subst (λ u. run (o ∷ []) s ≡ apply o u) same (run_one o s)
run-snoc (p ∷ os) o s s' e =
    let (t, done, rest) = run-cons p os s s' e in rw (done, run) (run-snoc os o t s' rest)

-- Where no index and no constraint is on a missing column, a migration that adds columns is taken
-- back by one that drops them in the opposite order.
pub run-drops :
    (t : String) (cs : List Column) (s s' : Schema)
    → All IsClosed s.tables
    → run (adds t cs) s ≡ some s'
    → run (drops t cs) s' ≡ some s
unfolding run apply
run-drops t [] s s' closed e = let same : s ≡ s' = ground (arith, e) in ap some (sym same)
run-drops t (c ∷ cs) s s' closed e = elim (Option-cases (alter t (add c) s.tables)) [
  | inl refused ↦ absurd (ground (arith, e, refused))
  | inr (ts, done) ↦
      let (back, closed') = alter-add c t s.tables ts closed done in
      let added_schema : Schema = record s { tables = ts } in
      let (next, first, later) = run-cons (add_column t c) (adds t cs) s s' e in
      let reached : apply (add_column t c) s ≡ some added_schema = rw done refl in
      let same : added_schema ≡ next = ground (arith, first, reached) in
      let rest = subst (λ u. run (adds t cs) u ≡ some s') (sym same) later in
      run-snoc (drops t cs) (drop_column t c.name) s' added_schema
        (run-drops t cs added_schema s' closed' rest)
      ∙ rw back refl
]
