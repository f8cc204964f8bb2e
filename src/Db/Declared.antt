-- ===== src/Db/Declared.antt =====
-- The tables as the models of src/backend/db/models declare them.
pub mod Mixins
pub mod Accounts
pub mod Runs
use crucible.Base.{List, [], ◌∷◌}
use crucible.Db.Schema.{Table}
use crucible.Db.Declared.Accounts.{tenants, users, agent_configs}
use crucible.Db.Declared.Runs.{
  evaluation_runs, golden_baselines, scenarios, trace_metadata, judgments,
}

abbrev pub declared : List Table
declared =
    tenants ∷ users ∷ agent_configs ∷ evaluation_runs ∷ golden_baselines ∷ scenarios
    ∷ trace_metadata ∷ judgments ∷ []
