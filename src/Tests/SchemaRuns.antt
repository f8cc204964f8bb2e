-- ===== src/Tests/SchemaRuns.antt =====
-- A body with a budget and two categories.
use crucible.Base.{ℕ, refl, true, [], ◌∷◌, none, some}
use crucible.Api.Evaluation.{EvaluationRunCreate}
use crucible.Api.Schemas.{RawRun, pos, evaluation_run_create, config_errors}
use crucible.Api.Schemas.Declared.{IsRunCreate, evaluation_run_create-IsRunCreate}
use crucible.Tests.Data.{nat_floats, run_config}

abbrev body : RawRun ℕ
body = record {
  agent_config_id = 5;
  name = "run";
  run_config = some (record {
    scenario_count = some (pos 20);
    categories = some ("safety" ∷ "jailbreak" ∷ []);
    severity_levels = none;
    red_team_enabled = none;
    judge_model = none;
    eval_budget_usd = some 250;
  });
}

abbrev created : EvaluationRunCreate ℕ
created = record {
  agent_config_id = 5;
  name = "run";
  run_config = record run_config {
    scenario_count = 20;
    categories = "safety" ∷ "jailbreak" ∷ [];
    red_team_enabled = true;
    eval_budget_usd = 250;
  };
}

evaluation_run_create-IsRunCreate_example : IsRunCreate created
unfolding evaluation_run_create config_errors
evaluation_run_create-IsRunCreate_example = evaluation_run_create-IsRunCreate body created refl refl
