-- ===== src/Api/Schemas.antt =====
-- src/backend/schemas/evaluation.py: what pydantic checks of the body of `create_evaluation_run`,
-- whose fields have the declared types and may be missing.
pub mod Declared
use Prim.Native.String.{count}
use text.Mathlib.Text.{◌==◌ as str_eq}
use crucible.Base.{
  ℕ, String, Bool, true, false, not, ◌&&◌, ◌||◌, List, [], ◌∷◌, ◌++◌, Option, none, some, any, ltb,
  leb, Floats, if◌then◌else◌,
}
use crucible.Db.Run.{RunConfig}
use crucible.Api.Evaluation.{EvaluationRunCreate}

-- Python's `int`
pub data ℤ : Type 0 where
  pos negsuc : ℕ → ℤ

pub data FieldError : Type 0 where
  scenario_count_range invalid_categories invalid_severity_levels eval_budget_range : FieldError
  name_too_long : FieldError

pub data Validated (A : Type 0) : Type 0 where
  valid : A → Validated A
  invalid : FieldError → List FieldError → Validated A

-- the fields of a JSON object for `RunConfig`
pub record RawConfig (F : Type 0) : Type 0 where
  pub scenario_count : Option ℤ
  pub categories : Option (List String)
  pub severity_levels : Option (List String)
  pub red_team_enabled : Option Bool
  pub judge_model : Option String
  pub eval_budget_usd : Option F

pub record RawRun (F : Type 0) : Type 0 where
  pub agent_config_id : ℕ
  pub name : String
  pub run_config : Option (RawConfig F)

abbrev pub or_default : {A : Type 0} → A → Option A → A
or_default d none = d
or_default d (some a) = a

abbrev pub is_in : List String → String → Bool
is_in names s = any (str_eq s) names

abbrev pub allowed_categories : List String
allowed_categories =
    "prompt_injection" ∷ "tool_misuse" ∷ "data_exfiltration" ∷ "jailbreak" ∷ "hallucination"
    ∷ "safety" ∷ "correctness" ∷ "general" ∷ []

abbrev pub allowed_severity_levels : List String
allowed_severity_levels = "low" ∷ "medium" ∷ "high" ∷ "critical" ∷ []

-- `set(v) - allowed` holds something
abbrev pub has_invalid : (allowed v : List String) → Bool
has_invalid allowed [] = false
has_invalid allowed (x ∷ xs) = not (is_in allowed x) || has_invalid allowed xs

-- a test, and the error where it fails
abbrev pub demand : FieldError → Bool → List FieldError
demand e true = []
demand e false = e ∷ []

-- `validate_categories`
abbrev pub validate_categories : List String → List FieldError
validate_categories v = demand invalid_categories (not (has_invalid allowed_categories v))

-- `validate_severity`
abbrev pub validate_severity : List String → List FieldError
validate_severity v = demand invalid_severity_levels (not (has_invalid allowed_severity_levels v))

-- `ge=1, le=500`
abbrev pub is_scenario_count : ℤ → Bool
is_scenario_count (pos n) = leb 1 n && leb n 500
is_scenario_count (negsuc n) = false

abbrev pub to_nat : ℤ → ℕ
to_nat (pos n) = n
to_nat (negsuc n) = 0

-- a check that a missing field does not meet
abbrev pub given : {A : Type 0} → (A → List FieldError) → Option A → List FieldError
given check none = []
given check (some a) = check a

module _ ⦃fl : Floats⦄ where
  open fl use {Float, decimal, lt, eq}

  -- `ge=0.1, le=100.0`
  abbrev pub is_eval_budget : Float → Bool
  is_eval_budget x =
      (lt (decimal 1 1) x || eq x (decimal 1 1)) && (lt x (decimal 100 0) || eq x (decimal 100 0))

  -- the object's errors, field by field
  unfoldable pub config_errors : RawConfig Float → List FieldError
  config_errors raw =
      given (λ n. demand scenario_count_range (is_scenario_count n)) raw.scenario_count
      ++ given validate_categories raw.categories
      ++ given validate_severity raw.severity_levels
      ++ given (λ x. demand eval_budget_range (is_eval_budget x)) raw.eval_budget_usd

  -- the object with the defaults of the missing fields
  abbrev pub fill : RawConfig Float → RunConfig Float
  fill raw = record {
    scenario_count = to_nat (or_default (pos 10) raw.scenario_count);
    categories = or_default [] raw.categories;
    severity_levels = or_default [] raw.severity_levels;
    red_team_enabled = or_default true raw.red_team_enabled;
    judge_model = or_default "gpt-4o" raw.judge_model;
    eval_budget_usd = or_default (decimal 5 0) raw.eval_budget_usd;
  }

  abbrev pub outcome : {A : Type 0} → A → List FieldError → Validated A
  outcome a [] = valid a
  outcome a (e ∷ es) = invalid e es

  unfoldable pub run_config : RawConfig Float → Validated (RunConfig Float)
  unfolding config_errors
  run_config raw = outcome (fill raw) (config_errors raw)

  abbrev pub no_fields : RawConfig Float
  no_fields = record {
    scenario_count = none;
    categories = none;
    severity_levels = none;
    red_team_enabled = none;
    judge_model = none;
    eval_budget_usd = none;
  }

  -- `EvaluationRunCreate`
  unfoldable pub evaluation_run_create : RawRun Float → Validated (EvaluationRunCreate Float)
  unfolding config_errors
  evaluation_run_create raw =
      outcome
        (record {
          agent_config_id = raw.agent_config_id;
          name = raw.name;
          run_config = fill (or_default no_fields raw.run_config);
        })
        (demand name_too_long (leb (count raw.name) 255) ++ given config_errors raw.run_config)
