-- ===== src/Agents/Judge/Once.antt =====
-- What the judge leaves unjudged: src/backend/agents/judge.py.
use crucible.Base.{
  suc, ◌+◌, ◌≡◌, refl, sym, ap, Bool, true, false, List, [], ◌∷◌, ◌++◌, some, arith, ◌==◌, ==_refl,
  any, any-append, filter, find?, length, All, Floats, Bool-cases, inl, inr,
}
use crucible.Agents.State.{
  GraphError, TraceMeta, JudgmentData, EvaluationState, no_update, get_or, reduce,
}
use crucible.Agents.Judge.{
  Judge, judge_single_trace, judge_all, collect, is_unjudged, judge_trace_node, Judged, error,
  judgment, errors_of, judge_traces,
}

module _ {ℓ} {A : Type ℓ} where
  any-append-right : (p : A → Bool) (xs ys : List A) → any p ys ≡ true → any p (xs ++ ys) ≡ true
  any-append-right p [] ys h = h
  any-append-right p (x ∷ xs) ys h = ground (arith, any-append-right p xs ys h)

  -- what holds of the items that pass, and of those that do not, holds of all
  All-filter {κ} :
      (Q : A → Type κ) (p : A → Bool) (xs : List A)
      → ((x : A) → p x ≡ false → Q x)
      → All Q (filter p xs)
      → All Q xs
  All-filter Q p [] f h = tt
  All-filter Q p (x ∷ xs) f h = elim (Bool-cases (p x)) [
    | inl pass ↦ let k = rw pass at h in (k.0, All-filter Q p xs f k.1)
    | inr fails ↦ (f x fails, All-filter Q p xs f (rw fails at h))
  ]

  All-filtered {κ} : (Q : A → Type κ) (p : A → Bool) (xs : List A) → All Q xs → All Q (filter p xs)
  All-filtered Q p [] h = tt
  All-filtered Q p (x ∷ xs) (k, h) = elim (Bool-cases (p x)) [
    | inl pass ↦ rw pass (k, All-filtered Q p xs h)
    | inr fails ↦ rw fails (All-filtered Q p xs h)
  ]

  filter-none : (p : A → Bool) (xs : List A) → All (λ x. p x ≡ false) xs → filter p xs ≡ []
  filter-none p [] h = refl
  filter-none p (x ∷ xs) (k, h) = ground (arith, filter-none p xs h)

  All-map {κ μ} :
      (P : A → Type κ) (Q : A → Type μ) (xs : List A) → ((x : A) → P x → Q x) → All P xs → All Q xs
  All-map P Q [] f h = tt
  All-map P Q (x ∷ xs) f (p, h) = (f x p, All-map P Q xs f h)

  any-find? : (p : A → Bool) (xs : List A) → any p xs ≡ true → (y : A) × (find? p xs ≡ some y)
  any-find? p [] h = cc
  any-find? p (x ∷ xs) h = elim (Bool-cases (p x)) [
    | inl pass ↦ (x, rw pass refl)
    | inr fails ↦ rw fails (any-find? p xs (rw fails at h))
  ]

module _ ⦃fl : Floats⦄ (env : Judge fl.Float) where
  open fl use {Float, decimal}

  abbrev of_trace : TraceMeta → JudgmentData Float → Bool
  of_trace t j = j.scenario_id == t.scenario_id

  -- the trace's scenario is in the state
  abbrev pub IsKnown : EvaluationState Float → TraceMeta → Type 0
  IsKnown state t = any (λ s. s.id == t.scenario_id) state.scenarios ≡ true

  collect-length :
      (c : Float) (rs : List (Judged Float))
      → length (collect env c rs).0 + length (collect env c rs).1 ≡ length rs
  unfolding collect
  collect-length c [] = refl
  collect-length c (error e ∷ rs) = omega (arith, collect-length c rs)
  collect-length c (judgment j x ∷ rs) = omega (arith, collect-length (fl.add c x) rs)

  -- the trace has a judgment among the first, or the result is a judgment of its scenario
  abbrev is_for : TraceMeta → Judged Float → Bool
  is_for t (error e) = false
  is_for t (judgment j c) = of_trace t j

  judge_single_trace-is_for :
      (state : EvaluationState Float) (t : TraceMeta)
      → IsKnown state t
      → is_for t (judge_single_trace env state t) ≡ true
  unfolding judge_single_trace
  judge_single_trace-is_for state t h =
      let (s, e) = any-find? (λ s. s.id == t.scenario_id) state.scenarios h in
      rw (e, is_for) (ground (arith, ==_refl t.scenario_id))

  collect-any :
      (c : Float) (t : TraceMeta) (rs : List (Judged Float))
      → any (is_for t) rs ≡ true
      → any (of_trace t) (collect env c rs).1 ≡ true
  unfolding collect
  collect-any c t [] h = cc
  collect-any c t (error e ∷ rs) h = collect-any c t rs h
  collect-any c t (judgment j x ∷ rs) h = ground (arith, collect-any (fl.add c x) t rs)

  judge_all-any :
      (state : EvaluationState Float) (ts : List TraceMeta)
      → All (IsKnown state) ts
      → All (λ t. any (is_for t) (judge_all env state ts) ≡ true) ts
  judge_all-any state [] h = tt
  judge_all-any state (t ∷ ts) (k, h) = (
    ground (arith, judge_single_trace-is_for state t k),
    All-map _ _ ts (λ t' q. ground arith) (judge_all-any state ts h),
  )

  judge_all-length :
      (state : EvaluationState Float) (ts : List TraceMeta)
      → length (judge_all env state ts) ≡ length ts
  judge_all-length state [] = refl
  judge_all-length state (t ∷ ts) = ap suc (judge_all-length state ts)

  get_or-errors_of : (es : List GraphError) → get_or (errors_of env es) [] ≡ es
  get_or-errors_of [] = refl
  get_or-errors_of (e ∷ es) = refl

  module _ (state : EvaluationState Float) where
    abbrev open_traces : List TraceMeta
    open_traces = filter (is_unjudged env state.judgments) state.traces

    judge_traces-length :
        (ts : List TraceMeta)
        → let u = judge_traces env state ts in
          (length (get_or u.errors []) + length (get_or u.judgments []) ≡ length ts)
          × (get_or u.turn_count 0 ≡ length ts)
    unfolding judge_traces
    judge_traces-length [] = (refl, refl)
    judge_traces-length (t ∷ ts) =
        let rs = judge_all env state (t ∷ ts) in
        (
          rw (get_or-errors_of (collect env (decimal 0 0) rs).0)
              (omega (arith, collect-length (decimal 0 0) rs, judge_all-length state (t ∷ ts))),
          refl,
        )

    -- The judge's update counts its judgments and errors: one for each trace whose scenario had no
    -- judgment.
    pub judge_trace_node-length :
        let u = judge_trace_node env state in
        (length (get_or u.errors []) + length (get_or u.judgments []) ≡ length open_traces)
        × (get_or u.turn_count 0 ≡ length open_traces)
    unfolding judge_trace_node
    judge_trace_node-length = judge_traces-length open_traces

    abbrev new_judgments : List TraceMeta → List (JudgmentData Float)
    new_judgments ts = (collect env (decimal 0 0) (judge_all env state ts)).1

    collect-judged :
        (ts : List TraceMeta)
        → ts ≡ open_traces
        → All (IsKnown state) state.traces
        → All (λ t. is_unjudged env (state.judgments ++ new_judgments ts) t ≡ false) state.traces
    collect-judged ts e known =
        let js = new_judgments ts in
        All-map (λ t. any (of_trace t) (state.judgments ++ js) ≡ true) _ state.traces
          (λ t h. ground arith)
          (All-filter (λ t. any (of_trace t) (state.judgments ++ js) ≡ true)
            (is_unjudged env state.judgments) state.traces
            (λ t h. any-append (of_trace t) state.judgments js (ground arith))
            (rw (← e) (
              All-map _ _ ts
                (λ t h.
                  any-append-right (of_trace t) state.judgments js
                    (collect-any (decimal 0 0) t (judge_all env state ts) h))
                (judge_all-any state ts
                  (rw e (All-filtered (IsKnown state) _ state.traces known))))))

    idle_of :
        (s : EvaluationState Float)
        → filter (is_unjudged env s.judgments) s.traces ≡ []
        → judge_trace_node env s ≡ no_update
    unfolding judge_trace_node
    idle_of s h = rw (h, judge_traces) refl

    judge_traces_once :
        (ts : List TraceMeta)
        → ts ≡ open_traces
        → All (IsKnown state) state.traces
        → judge_trace_node env (reduce state (judge_traces env state ts)) ≡ no_update
    unfolding judge_traces reduce
    judge_traces_once [] e known = idle_of (reduce state no_update) (sym e)
    judge_traces_once (t ∷ ts) e known =
        idle_of (reduce state (judge_traces env state (t ∷ ts)))
          (filter-none _ state.traces (collect-judged (t ∷ ts) e known))

    -- Where every trace's scenario is in the state, the judge has nothing to do after its own
    -- update is merged.
    pub judge_trace_node_once :
        All (IsKnown state) state.traces
        → judge_trace_node env (reduce state (judge_trace_node env state)) ≡ no_update
    unfolding judge_trace_node
    judge_trace_node_once known = judge_traces_once open_traces refl known
