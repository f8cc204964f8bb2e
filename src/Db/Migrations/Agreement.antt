-- ===== src/Db/Migrations/Agreement.antt =====
-- src/backend/db/migrations against src/backend/db/models: the schema that the migrations build, and
-- the one that the models declare.
use text.Mathlib.Text.{◌==◌ as str_eq}
use crucible.Base.{
  ◌≡◌, refl, String, Bool, true, false, ◌&&◌, not, List, [], ◌∷◌, ◌++◌, Option, none, some, any,
  ◌==◌,
}
use crucible.Db.Schema.{
  ColumnType, string, array_of_string, unbounded_text, uuid, timestamptz, boolean, integer, float,
  jsonb, enum, Column, Rule, no_action, cascade, set_null, restrict, Constraint, constraint_name,
  Index, Table, Schema, Op, run,
}
use crucible.Db.Declared.{declared}
use crucible.Db.Migrations.Initial as Initial
use crucible.Db.Migrations.DeletedAt as DeletedAt
use crucible.Db.Migrations.Remediations as Remediations
use crucible.Db.Migrations.Heartbeat as Heartbeat
use crucible.Db.Migrations.Operations as Operations
use crucible.Db.Migrations.Reversal.{empty}

abbrev pub same_names : List String → List String → Bool
same_names [] [] = true
same_names (a ∷ ns) (b ∷ ms) = str_eq a b && same_names ns ms
same_names _ _ = false

abbrev pub same_type : ColumnType → ColumnType → Bool
same_type (string n) (string m) = n == m
same_type (array_of_string n) (array_of_string m) = n == m
same_type unbounded_text unbounded_text = true
same_type uuid uuid = true
same_type timestamptz timestamptz = true
same_type boolean boolean = true
same_type integer integer = true
same_type float float = true
same_type jsonb jsonb = true
same_type (enum n ls) (enum m ks) = str_eq n m && same_names ls ks
same_type _ _ = false

abbrev pub same_default : Option String → Option String → Bool
same_default none none = true
same_default (some a) (some b) = str_eq a b
same_default _ _ = false

abbrev pub same_bool : Bool → Bool → Bool
same_bool true b = b
same_bool false b = not b

-- but for the default
abbrev pub same_column : Column → Column → Bool
same_column a b = str_eq a.name b.name && same_type a.type b.type && same_bool a.nullable b.nullable

abbrev pub same_rule : Rule → Rule → Bool
same_rule no_action no_action = true
same_rule cascade cascade = true
same_rule set_null set_null = true
same_rule restrict restrict = true
same_rule _ _ = false

abbrev pub same_index : Index → Index → Bool
same_index a b = str_eq a.name b.name && same_names a.columns b.columns

-- by the name that the database knows a constraint by
abbrev pub same_constraint : (table : String) → Constraint → Constraint → Bool
same_constraint t a b = str_eq (constraint_name t a) (constraint_name t b)

-- every element of the one list has one like it in the other
abbrev pub covers : {A : Type 0} → (A → A → Bool) → List A → List A → Bool
covers same [] ys = true
covers same (x ∷ xs) ys = any (same x) ys && covers same xs ys

abbrev pub agree : {A : Type 0} → (A → A → Bool) → List A → List A → Bool
agree same xs ys = covers same xs ys && covers same ys xs

abbrev pub same_table : Table → Table → Bool
same_table a b =
    str_eq a.name b.name
    && agree same_column a.columns b.columns
    && agree (same_constraint a.name) a.constraints b.constraints
    && agree same_index a.indexes b.indexes

-- all migrations, in the order of their revisions
abbrev pub chain : List Op
chain =
    Initial.upgrade ++ DeletedAt.upgrade ++ Remediations.upgrade ++ Heartbeat.upgrade
    ++ Operations.upgrade

abbrev pub agrees_with : List Table → Option Schema → Bool
agrees_with ts none = false
agrees_with ts (some s) = agree same_table s.tables ts

-- On an empty database, all migrations succeed, and what they leave has the tables that the models
-- declare, with the same columns and types, and with constraints and indexes of the same names;
-- server defaults and the rules of the constraints are not compared.
pub run-declared : agrees_with declared (run chain empty) ≡ true
unfolding run
run-declared = refl
