-- ===== src/Db/Schema.antt =====
-- The commands of Alembic that the migrations use, on a schema: src/backend/db/migrations. What
-- PostgreSQL refuses is `none`; a missing name of a constraint is the one that PostgreSQL gives.
pub mod Undo
use Prim.Native.String.{◌++◌ as str_append}
use text.Mathlib.Text.{◌==◌ as str_eq}
use crucible.Base.{
  ℕ, String, Bool, true, false, not, ◌&&◌, List, [], ◌∷◌, ◌++◌, Option, none, some, any, map,
  if◌then◌else◌,
}

pub data ColumnType : Type 0 where
  string array_of_string : (length : ℕ) → ColumnType
  unbounded_text uuid timestamptz boolean integer float jsonb : ColumnType
  enum : (name : String) → (labels : List String) → ColumnType

pub record Column : Type 0 where
  pub name : String
  pub type : ColumnType
  pub nullable : Bool
  pub server_default : Option String

-- a column that is filled in by every insert, one that may be NULL, and one with a default
abbrev pub required : String → ColumnType → Column
required n ty = record { name = n; type = ty; nullable = false; server_default = none }

abbrev pub nullable : String → ColumnType → Column
nullable n ty = record { name = n; type = ty; nullable = true; server_default = none }

abbrev pub defaulted : String → ColumnType → String → Column
defaulted n ty d = record { name = n; type = ty; nullable = false; server_default = some d }

pub data Rule : Type 0 where
  no_action cascade set_null restrict : Rule

pub data Constraint : Type 0 where
  primary_key : (columns : List String) → Constraint
  unique : (name : Option String) → (columns : List String) → Constraint
  foreign_key :
      (name : Option String) → (columns : List String) → (table : String) → Rule → Constraint

pub record Index : Type 0 where
  pub name : String
  pub columns : List String

pub record Table : Type 0 where
  pub name : String
  pub columns : List Column
  pub constraints : List Constraint
  pub indexes : List Index

pub record Schema : Type 0 where
  pub tables : List Table
  pub enums : List String

abbrev pub is_in : List String → String → Bool
is_in names s = any (str_eq s) names

abbrev pub has_column : String → List Column → Bool
has_column n = any (λ c. str_eq n c.name)

-- `filter` that keeps what does not match
abbrev pub without : {A : Type 0} → (A → Bool) → List A → List A
without p [] = []
without p (x ∷ xs) = let rest = without p xs in if p x then rest else x ∷ rest

abbrev pub columns_of : Constraint → List String
columns_of (primary_key cs) = cs
columns_of (unique n cs) = cs
columns_of (foreign_key n cs t r) = cs

abbrev pub join_names : List String → String
join_names [] = ""
join_names (c ∷ cs) = str_append "_" (str_append c (join_names cs))

abbrev pub or_name : Option String → String → String
or_name none d = d
or_name (some n) d = n

-- a constraint's name, also where the command gives none
abbrev pub constraint_name : (table : String) → Constraint → String
constraint_name t (primary_key cs) = str_append t "_pkey"
constraint_name t (unique n cs) = or_name n (str_append t (str_append (join_names cs) "_key"))
constraint_name t (foreign_key n cs r on_delete) =
    or_name n (str_append t (str_append (join_names cs) "_fkey"))

abbrev pub enum_names : List Column → List String
enum_names [] = []
enum_names (c ∷ cs) =
    let rest = enum_names cs in elim c.type [ enum n labels ↦ n ∷ rest | _ ↦ rest ]

-- the command on the table of that name
abbrev pub alter : String → (Table → Option Table) → List Table → Option (List Table)
alter t f [] = none
alter t f (x ∷ xs) =
    let rest = alter t f xs in
    if str_eq t x.name
    then elim (f x) [ none ↦ none | some x' ↦ some (x' ∷ xs) ]
    else elim rest [ none ↦ none | some xs' ↦ some (x ∷ xs') ]

-- one command of `op`
pub data Op : Type 0 where
  create_table : (name : String) → List Column → List Constraint → Op
  drop_table : (name : String) → Op
  create_index : (name table : String) → (columns : List String) → Op
  drop_index : (name table : String) → Op
  add_column : (table : String) → Column → Op
  drop_column : (table name : String) → Op
  create_constraint : (table : String) → Constraint → Op
  drop_constraint : (name : Option String) → (table : String) → Op
  alter_type : (table column : String) → ColumnType → Op

abbrev pub add : Column → Table → Option Table
add c t =
    if has_column c.name t.columns then none else some (record t { columns = t.columns ++ c ∷ [] })

-- a column goes with the indexes and the constraints on it
abbrev pub drop : String → Table → Option Table
drop n t =
    if has_column n t.columns
    then some (record t {
      columns = without (λ c. str_eq n c.name) t.columns;
      constraints = without (λ k. is_in (columns_of k) n) t.constraints;
      indexes = without (λ i. is_in i.columns n) t.indexes;
    })
    else none

abbrev pub has_index : String → Table → Bool
has_index n t = any (λ i. str_eq n i.name) t.indexes

abbrev pub has_constraint : String → Table → Bool
has_constraint n t = any (λ k. str_eq n (constraint_name t.name k)) t.constraints

abbrev pub on_tables : Schema → Option (List Table) → Option Schema
on_tables s none = none
on_tables s (some ts) = some (record s { tables = ts })

abbrev pub refers_to : String → Constraint → Bool
refers_to t (foreign_key n cs r on_delete) = str_eq t r
refers_to t _ = false

-- a foreign key to a table that is not there
abbrev pub refers_to_missing : List Table → Constraint → Bool
refers_to_missing ts (foreign_key n cs r on_delete) = not (any (λ t. str_eq r t.name) ts)
refers_to_missing ts _ = false

-- a type that PostgreSQL casts the column's values to by itself
abbrev pub is_castable : ColumnType → ColumnType → Bool
is_castable timestamptz timestamptz = true
is_castable (string n) (string m) = true
is_castable (string n) unbounded_text = true
is_castable uuid uuid = true
is_castable _ _ = false

abbrev pub retype : String → ColumnType → List Column → Option (List Column)
retype n ty [] = none
retype n ty (c ∷ cs) =
    let rest = retype n ty cs in
    if str_eq n c.name
    then if is_castable c.type ty then some (record c { type = ty } ∷ cs) else none
    else elim rest [ none ↦ none | some cs' ↦ some (c ∷ cs') ]

unfoldable pub apply : Op → Schema → Option Schema
apply (create_table n cs ks) s =
    if any (λ t. str_eq n t.name) s.tables
    then none
    else if any (is_in s.enums) (enum_names cs)
    then none
    else if any
        (refers_to_missing
          (record { name = n; columns = cs; constraints = ks; indexes = [] } ∷ s.tables))
        ks
    then none
    else some (record s {
      tables = s.tables ++ record { name = n; columns = cs; constraints = ks; indexes = [] } ∷ [];
      enums = s.enums ++ enum_names cs;
    })
apply (drop_table n) s =
    let rest = without (λ t. str_eq n t.name) s.tables in
    if not (any (λ t. str_eq n t.name) s.tables)
    then none
    else if any (λ t. any (refers_to n) t.constraints) rest
    then none
    else some (record s { tables = rest })
apply (create_index n t cs) s =
    if any (has_index n) s.tables
    then none
    else on_tables s (
        alter t
          (λ x. some (record x { indexes = x.indexes ++ record { name = n; columns = cs } ∷ [] }))
          s.tables)
apply (drop_index n t) s = on_tables s (
    alter t
      (λ x.
        if has_index n x
        then some (record x { indexes = without (λ i. str_eq n i.name) x.indexes })
        else none)
      s.tables)
apply (add_column t c) s = on_tables s (alter t (add c) s.tables)
apply (drop_column t n) s = on_tables s (alter t (drop n) s.tables)
apply (create_constraint t k) s = on_tables s (
    alter t
      (λ x.
        if has_constraint (constraint_name t k) x
        then none
        else some (record x { constraints = x.constraints ++ k ∷ [] }))
      s.tables)
apply (drop_constraint none t) s = none
apply (drop_constraint (some n) t) s = on_tables s (
    alter t
      (λ x.
        if has_constraint n x
        then some (record x {
          constraints = without (λ k. str_eq n (constraint_name x.name k)) x.constraints;
        })
        else none)
      s.tables)
apply (alter_type t n ty) s = on_tables s (
    alter t
      (λ x. elim (retype n ty x.columns) [
        | none ↦ none
        | some cs ↦ some (record x { columns = cs })
      ])
      s.tables)

-- a migration: its commands in one transaction
unfoldable pub run : List Op → Schema → Option Schema
unfolding apply
run [] s = some s
run (o ∷ os) s = elim (apply o s) [ none ↦ none | some s' ↦ run os s' ]
