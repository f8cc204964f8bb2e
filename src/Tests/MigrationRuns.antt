-- ===== src/Tests/MigrationRuns.antt =====
-- The migration of the drift analysis on a database with one table.
use crucible.Base.{◌≡◌, refl, Option, none, some, [], ◌∷◌, All}
use crucible.Db.Schema.{Schema, Table, uuid, required, run}
use crucible.Db.Schema.Undo.{IsClosed}
use crucible.Db.Migrations.Operations.{upgrade, downgrade}
use crucible.Db.Migrations.Reversal.{downgrade-upgrade}

abbrev runs : Table
runs = record {
  name = "evaluation_runs";
  columns = required "id" uuid ∷ [];
  constraints = [];
  indexes = [];
}

abbrev before : Schema
before = record { tables = runs ∷ []; enums = [] }

abbrev after : Option Schema
unfolding run
after = run upgrade before

abbrev or_before : Option Schema → Schema
or_before none = before
or_before (some s) = s

before-IsClosed : All IsClosed before.tables
before-IsClosed = (record { constraints = λ n gone. refl; indexes = λ n gone. refl }, tt)

downgrade-upgrade_example : run downgrade (or_before (run upgrade before)) ≡ some before
unfolding run
downgrade-upgrade_example =
    downgrade-upgrade before (or_before (run upgrade before)) before-IsClosed refl
