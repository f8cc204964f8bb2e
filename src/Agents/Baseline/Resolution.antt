-- ===== src/Agents/Baseline/Resolution.antt =====
-- Which run a run is compared with: `_resolve_baseline` of src/backend/agents/analyzer.py.
use mathlib.Core.List.{Memᴰ}
use crucible.Base.{
  ℕ, ◌≡◌, ◌≢◌, ◌⊎◌, inl, inr, ap, ◌∙◌, true, false, some, arith, ltb, All, Floats, Bool-cases,
  Option-cases, str_eq_sound,
}
use crucible.Db.Run.{EvaluationRun}
use crucible.Db.Models.{World}
use crucible.Db.Order.{first, page}
use crucible.Db.Order.First.{IsFirst, first-page, first-order_by_asc, none-page}
use crucible.Agents.Baseline.{
  embedding_model, is_pinned, is_fallback, is_current_model, pinned_or_fallback, resolve_baseline,
}

module _ ⦃fl : Floats⦄ (tenant_id agent_id run_id : ℕ) (w : World fl.Float) where
  open fl use {Float}

  -- the latest pinned run, or the oldest run with a good score where no run is pinned
  pub IsChosen : EvaluationRun Float → Type 0
  IsChosen r =
      IsFirst (λ x y. ltb x.created_at y.created_at) (is_pinned tenant_id agent_id) w.runs r
      ⊎ (All (λ x. is_pinned tenant_id agent_id x ≡ false) w.runs
          × IsFirst (λ x y. ltb y.created_at x.created_at) (is_fallback tenant_id agent_id run_id)
              w.runs r)

  -- a run of the same tenant and agent configuration whose embeddings come from the model in use;
  -- it is pinned, or it is another run
  pub record IsBaseline (b : ℕ) (r : EvaluationRun Float) : Type 0 where
    pub is_row : Memᴰ r w.runs
    pub id_eq : r.id ≡ b
    pub same_tenant : r.tenant_id ≡ tenant_id
    pub same_agent : r.agent_config_id ≡ agent_id
    pub current_model : r.embedding_model_version ≡ some embedding_model
    pub pinned_or_other : (r.is_baseline ≡ true) ⊎ (b ≢ run_id)
    pub is_chosen : IsChosen r

  pinned_or_fallback-IsChosen :
      (r : EvaluationRun Float)
      → pinned_or_fallback tenant_id agent_id run_id w ≡ some r
      → IsChosen r
  unfolding pinned_or_fallback IsChosen
  pinned_or_fallback-IsChosen r h =
      let pinned = first (page (λ x. x.created_at) (is_pinned tenant_id agent_id) 0 1 w.runs) in
      elim (Option-cases pinned) [
        | inl e ↦ inr (
          none-page (λ x. x.created_at) (is_pinned tenant_id agent_id) w.runs r e,
          first-order_by_asc (λ x. x.created_at) (is_fallback tenant_id agent_id run_id) w.runs r
              (ground (arith, h, e)),
        )
        | inr (x, e) ↦ inl (
            first-page (λ x. x.created_at) (is_pinned tenant_id agent_id) w.runs r
              (ground (arith, h, e)))
      ]

  current_model_sound :
      (r : EvaluationRun Float)
      → is_current_model r ≡ true
      → r.embedding_model_version ≡ some embedding_model
  current_model_sound r h = elim (Option-cases r.embedding_model_version) [
    | inl e ↦ absurd (ground arith)
    | inr (v, e) ↦ e ∙ ap some (str_eq_sound v embedding_model (ground arith))
  ]

  -- what the chosen run is, whichever query gave it
  chosen_facts :
      (r : EvaluationRun Float)
      → IsChosen r
      → Memᴰ r w.runs
        × (r.tenant_id ≡ tenant_id)
        × (r.agent_config_id ≡ agent_id)
        × ((r.is_baseline ≡ true) ⊎ (r.id ≢ run_id))
  unfolding IsChosen
  chosen_facts r (inl f) =
      let pinned = f.passes in (f.is_row, ground arith, ground arith, inl (ground arith))
  chosen_facts r (inr (_, f)) =
      let good = f.passes in (f.is_row, ground arith, ground arith, inr (λ e. ground arith))

  -- A baseline that is found is a stored run of the same tenant and agent configuration, whose
  -- embeddings come from the model in use: the latest pinned run, or, where none is pinned, the
  -- oldest other run with a score of 80 or more.
  pub resolve_baseline_sound :
      (b : ℕ)
      → resolve_baseline tenant_id agent_id run_id w ≡ some b
      → (r : EvaluationRun Float) × IsBaseline b r
  unfolding resolve_baseline
  resolve_baseline_sound b h =
      elim (Option-cases (pinned_or_fallback tenant_id agent_id run_id w)) [
        | inl e ↦ absurd (ground arith)
        | inr (r, e) ↦ elim (Bool-cases (is_current_model r)) [
          | inr old ↦ absurd (ground arith)
          | inl current ↦
              let same : r.id ≡ b = ground arith in
              let chosen = pinned_or_fallback-IsChosen r e in
              let (row, tenant, agent, other) = chosen_facts r chosen in
              (
                r,
                record {
                  is_row = row;
                  id_eq = same;
                  same_tenant = tenant;
                  same_agent = agent;
                  current_model = current_model_sound r current;
                  pinned_or_other = elim other [ inl p ↦ inl p | inr o ↦ inr (λ x. o (same ∙ x)) ];
                  is_chosen = chosen;
                },
              )
        ]
      ]
