-- ===== src/Api/Schemas/Declared.antt =====
-- src/backend/schemas/evaluation.py: the constraints that a run's configuration has behind the schema.
use mathlib.Core.Path.{subst}
use Prim.Native.String.{count}
use crucible.Base.{
  ◌≡◌, ◌≤◌, refl, String, Bool, true, false, not, List, [], ◌∷◌, ◌++◌, Option, none, some, leb,
  Floats, All, arith, Bool-cases, inl, inr,
}
use crucible.Db.Run.{RunConfig}
use crucible.Api.Evaluation.{EvaluationRunCreate}
use crucible.Api.Schemas.{
  ℤ, pos, negsuc, FieldError, valid, RawConfig, RawRun, or_default, is_in, allowed_categories,
  allowed_severity_levels, has_invalid, demand, validate_categories, validate_severity,
  is_scenario_count, to_nat, given, is_eval_budget, config_errors, fill, outcome, no_fields,
  evaluation_run_create,
}

module _ ⦃fl : Floats⦄ where
  open fl use {Float, decimal}

  -- the constraints of the class
  pub record IsRunConfig (c : RunConfig Float) : Type 0 where
    pub at_least_one : 1 ≤ c.scenario_count
    pub at_most_500 : c.scenario_count ≤ 500
    pub categories : All (λ x. is_in allowed_categories x ≡ true) c.categories
    pub severity_levels : All (λ x. is_in allowed_severity_levels x ≡ true) c.severity_levels
    pub budget : is_eval_budget c.eval_budget_usd ≡ true

  pub record IsRunCreate (r : EvaluationRunCreate Float) : Type 0 where
    pub name : count r.name ≤ 255
    pub config : IsRunConfig r.run_config

  All-has_invalid :
      (allowed v : List String)
      → has_invalid allowed v ≡ false
      → All (λ x. is_in allowed x ≡ true) v
  All-has_invalid allowed [] h = tt
  All-has_invalid allowed (x ∷ xs) h = elim (Bool-cases (is_in allowed x)) [
    | inl known ↦ (known, All-has_invalid allowed xs (ground (arith, h, known)))
    | inr unknown ↦ absurd (ground (arith, h, unknown))
  ]

  no_errors : {A : Type 0} (xs ys : List A) → xs ++ ys ≡ [] → (xs ≡ []) × (ys ≡ [])
  no_errors [] ys h = (refl, h)
  no_errors (x ∷ xs) ys h = absurd (ground (arith, h))

  met : (e : FieldError) (b : Bool) → demand e b ≡ [] → b ≡ true
  met e true h = refl
  met e false h = absurd (ground (arith, h))

  known :
      (allowed v : List String) (e : FieldError)
      → demand e (not (has_invalid allowed v)) ≡ []
      → All (λ x. is_in allowed x ≡ true) v
  known allowed v e h =
      All-has_invalid allowed v (ground (arith, met e (not (has_invalid allowed v)) h))

  outcome_valid :
      {A : Type 0} (a c : A) (es : List FieldError) → outcome a es ≡ valid c → (es ≡ []) × (a ≡ c)
  outcome_valid a c [] h = (refl, ground (arith, h))
  outcome_valid a c (e ∷ es) h = absurd (ground (arith, h))

  count_ok :
      (n : Option ℤ)
      → given (λ x. demand FieldError.scenario_count_range (is_scenario_count x)) n ≡ []
      → (1 ≤ to_nat (or_default (pos 10) n)) × (to_nat (or_default (pos 10) n) ≤ 500)
  count_ok none h = (omega arith, omega arith)
  count_ok (some (pos k)) h = ground (arith, met _ _ h)
  count_ok (some (negsuc k)) h = absurd (ground (arith, h))

  names_ok :
      (allowed : List String) (e : FieldError) (v : Option (List String))
      → given (λ x. demand e (not (has_invalid allowed x))) v ≡ []
      → All (λ x. is_in allowed x ≡ true) (or_default [] v)
  names_ok allowed e none h = tt
  names_ok allowed e (some v) h = known allowed v e h

  budget_ok :
      (d : Float) (v : Option Float)
      → is_eval_budget d ≡ true
      → given (λ x. demand FieldError.eval_budget_range (is_eval_budget x)) v ≡ []
      → is_eval_budget (or_default d v) ≡ true
  budget_ok d none h k = h
  budget_ok d (some x) h k = met _ (is_eval_budget x) k

  fill-IsRunConfig :
      (raw : RawConfig Float)
      → is_eval_budget (decimal 5 0) ≡ true
      → config_errors raw ≡ []
      → IsRunConfig (fill raw)
  unfolding config_errors
  fill-IsRunConfig raw d h =
      let budget =
        given (λ x. demand FieldError.eval_budget_range (is_eval_budget x)) raw.eval_budget_usd in
      let severity = given validate_severity raw.severity_levels in
      let categories = given validate_categories raw.categories in
      let number =
        given (λ x. demand FieldError.scenario_count_range (is_scenario_count x))
          raw.scenario_count in
      let (rest, b) = no_errors (number ++ categories ++ severity) budget h in
      let (rest', s) = no_errors (number ++ categories) severity rest in
      let (n, c) = no_errors number categories rest' in
      record {
        at_least_one = (count_ok raw.scenario_count n).0;
        at_most_500 = (count_ok raw.scenario_count n).1;
        categories = names_ok allowed_categories FieldError.invalid_categories raw.categories c;
        severity_levels =
            names_ok allowed_severity_levels FieldError.invalid_severity_levels raw.severity_levels
              s;
        budget = budget_ok (decimal 5 0) raw.eval_budget_usd d b;
      }

  config_ok :
      (raw : Option (RawConfig Float))
      → is_eval_budget (decimal 5 0) ≡ true
      → given config_errors raw ≡ []
      → IsRunConfig (fill (or_default no_fields raw))
  unfolding config_errors
  config_ok none d h = fill-IsRunConfig no_fields d refl
  config_ok (some raw) d h = fill-IsRunConfig raw d h

  -- A body that the schema lets through gives a run whose name has at most 255 characters and whose
  -- configuration keeps every declared constraint, if the default budget does.
  pub evaluation_run_create-IsRunCreate :
      (raw : RawRun Float) (r : EvaluationRunCreate Float)
      → is_eval_budget (decimal 5 0) ≡ true
      → evaluation_run_create raw ≡ valid r
      → IsRunCreate r
  unfolding evaluation_run_create
  evaluation_run_create-IsRunCreate raw r d h =
      let named = demand FieldError.name_too_long (leb (count raw.name) 255) in
      let errors = given config_errors raw.run_config in
      let (es, same) = outcome_valid _ r (named ++ errors) h in
      let (n, c) = no_errors named errors es in
      let short = met FieldError.name_too_long (leb (count raw.name) 255) n in
      subst IsRunCreate same
        (record { name = ground (arith, short); config = config_ok raw.run_config d c })

  has_invalid-All :
      (allowed v : List String)
      → All (λ x. is_in allowed x ≡ true) v
      → has_invalid allowed v ≡ false
  has_invalid-All allowed [] h = refl
  has_invalid-All allowed (x ∷ xs) (known, h) = ground (arith, known, has_invalid-All allowed xs h)

  -- the body that gives every field
  abbrev pub body_of : EvaluationRunCreate Float → RawRun Float
  body_of r =
      let c = r.run_config in
      record {
        agent_config_id = r.agent_config_id;
        name = r.name;
        run_config = some (record {
          scenario_count = some (pos c.scenario_count);
          categories = some c.categories;
          severity_levels = some c.severity_levels;
          red_team_enabled = some c.red_team_enabled;
          judge_model = some c.judge_model;
          eval_budget_usd = some c.eval_budget_usd;
        });
      }

  -- The schema lets a run through, as it is, that keeps the declared constraints.
  pub evaluation_run_create-body_of :
      (r : EvaluationRunCreate Float) → IsRunCreate r → evaluation_run_create (body_of r) ≡ valid r
  unfolding evaluation_run_create config_errors
  evaluation_run_create-body_of r h =
      let c = h.config in
      let short : leb (count r.name) 255 ≡ true = ground (arith, h.name) in
      let one : leb 1 r.run_config.scenario_count ≡ true = ground (arith, c.at_least_one) in
      let many : leb r.run_config.scenario_count 500 ≡ true = ground (arith, c.at_most_500) in
      rw
        (
          short,
          one,
          many,
          c.budget,
          has_invalid-All allowed_categories r.run_config.categories c.categories,
          has_invalid-All allowed_severity_levels r.run_config.severity_levels c.severity_levels,
        )
        refl
