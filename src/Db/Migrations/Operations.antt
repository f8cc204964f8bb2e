-- ===== src/Db/Migrations/Operations.antt =====
-- src/backend/db/migrations/versions/0e258e8b9c04_add_milestone_9_ai_operations_fields.py: the columns of the drift analysis.
use crucible.Base.{List, [], ◌∷◌}
use crucible.Db.Schema.{string, boolean, jsonb, Op, add_column, drop_column, nullable, defaulted}

abbrev pub upgrade : List Op
upgrade =
    add_column "evaluation_runs" (nullable "drift_profile" jsonb)
    ∷ add_column "evaluation_runs" (nullable "embedding_model_version" (string 100))
    ∷ add_column "evaluation_runs" (defaulted "is_baseline" boolean "false")
    ∷ add_column "evaluation_runs" (nullable "evolution_suggestions" jsonb)
    ∷ []

abbrev pub downgrade : List Op
downgrade =
    drop_column "evaluation_runs" "evolution_suggestions"
    ∷ drop_column "evaluation_runs" "is_baseline"
    ∷ drop_column "evaluation_runs" "embedding_model_version"
    ∷ drop_column "evaluation_runs" "drift_profile"
    ∷ []
