-- ===== src/Db/Migrations/Reversal.antt =====
-- src/backend/db/migrations/versions: which downgrades take their migration back.
use crucible.Base.{◌≡◌, refl, List, [], ◌∷◌, ◌++◌, Option, none, some, All, Option-cases, inl, inr}
use crucible.Db.Schema.{
  Schema, Table, Column, drop_column, nullable, defaulted, string, boolean, jsonb, apply, run,
}
use crucible.Db.Schema.Undo.{IsClosed, run-drops}
use crucible.Db.Migrations.Initial as Initial
use crucible.Db.Migrations.Heartbeat as Heartbeat
use crucible.Db.Migrations.Operations.{upgrade, downgrade}

columns : List Column
columns =
    nullable "drift_profile" jsonb
    ∷ nullable "embedding_model_version" (string 100)
    ∷ defaulted "is_baseline" boolean "false"
    ∷ nullable "evolution_suggestions" jsonb
    ∷ []

-- The migration that adds the columns of the drift analysis is taken back by its downgrade, on every
-- schema on which it succeeds and whose indexes and constraints are on columns that are there.
pub downgrade-upgrade :
    (s t : Schema) → All IsClosed s.tables → run upgrade s ≡ some t → run downgrade t ≡ some s
unfolding columns
downgrade-upgrade = run-drops "evaluation_runs" columns

-- The migration of the heartbeat column cannot be taken back on any schema: its downgrade drops a
-- constraint without a name.
pub downgrade_heartbeat : (s : Schema) → run Heartbeat.downgrade s ≡ none
unfolding run apply
downgrade_heartbeat s =
    elim (Option-cases (apply (drop_column "evaluation_runs" "last_heartbeat_at") s)) [
      | inl refused ↦ rw (refused, run) refl
      | inr (t, done) ↦ rw (done, run) refl
    ]

abbrev pub empty : Schema
empty = record { tables = []; enums = [] }

abbrev pub tables_of : Option Schema → Option (List Table)
tables_of none = none
tables_of (some s) = some s.tables

-- The downgrade of the first migration leaves no table, but it leaves the enum types, so the
-- migration cannot be repeated.
initial_repeated :
    (tables_of (run (Initial.upgrade ++ Initial.downgrade) empty) ≡ some [])
    × (run (Initial.upgrade ++ Initial.downgrade ++ Initial.upgrade) empty ≡ none)
unfolding run
initial_repeated = (refl, refl)
