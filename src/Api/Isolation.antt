-- ===== src/Api/Isolation.antt =====
-- A tenant sees its own rows only: the reading handlers of src/backend/api/routes/evaluation.py,
-- agent_config.py and operations.py.
use mathlib.Core.List.{Memᴰ}
use crucible.Base.{
  ap, ◌∙◌, ◌*◌, ◌↔◌, ==_sound, ==_refl, ℕ, ◌≤◌, ◌≡◌, true, ◌==◌, ◌&&◌, length, length-take-le, All,
  List,
}
use crucible.Db.Order.{All-page}
use crucible.Db.Order.Pages.{page_iff}
use crucible.Db.Run.{EvaluationRun}
use crucible.Db.Models.{World, User}
use crucible.Api.Baseline.{list_evaluation_runs}
use crucible.Api.AgentConfig.{is_live, list_agent_configs}

module _ {F : Type 0} (current_user : User) (w : World F) where
  module _ (arrange : List (EvaluationRun F) → List (EvaluationRun F)) where
    -- A page of evaluation runs holds at most `limit` runs, all of the caller's tenant.
    pub list_evaluation_runs_isolates :
        (skip limit : ℕ)
        → let page = list_evaluation_runs arrange current_user skip limit w in
          (length page ≤ limit) × All (λ r. (r.tenant_id == current_user.tenant_id) ≡ true) page
    unfolding list_evaluation_runs
    list_evaluation_runs_isolates skip limit = (
      length-take-le limit _,
      All-page (λ r. r.created_at) (λ r. r.tenant_id == current_user.tenant_id) skip limit
          (arrange w.runs),
    )

    -- If the database breaks the ties between runs of one time in the same way for every page, and the
    -- table does not change, the pages of any size hold, one after the other, exactly the stored runs
    -- of the caller's tenant: each of these runs stands on one of them, and no other run does.
    pub list_evaluation_runs_iff :
        ((r : EvaluationRun F) → Memᴰ r (arrange w.runs) ↔ Memᴰ r w.runs)
        → (limit : ℕ) → 1 ≤ limit
        → (r : EvaluationRun F)
        → ((k : ℕ) × Memᴰ r (list_evaluation_runs arrange current_user (k * limit) limit w))
          ↔ (Memᴰ r w.runs × (r.tenant_id ≡ current_user.tenant_id))
    unfolding list_evaluation_runs
    list_evaluation_runs_iff same limit one r =
        let (sound, complete) =
          page_iff (λ x. x.created_at) (λ x. x.tenant_id == current_user.tenant_id) (arrange w.runs)
            limit one r in
        (
          λ on.
              let (row, own) = sound on in
              ((same r).0 row, ==_sound r.tenant_id current_user.tenant_id own),
          λ (row, own). complete (
            (same r).1 row,
            ap (λ t. t == current_user.tenant_id) own ∙ ==_refl current_user.tenant_id,
          ),
        )

  -- A page of agent configurations holds at most `limit` of them, all of the caller's tenant and
  -- none of them deleted.
  pub list_agent_configs_isolates :
      (skip limit : ℕ)
      → let page = list_agent_configs current_user skip limit w in
        (length page ≤ limit)
        × All (λ a. (a.tenant_id == current_user.tenant_id && is_live a) ≡ true) page
  unfolding list_agent_configs
  list_agent_configs_isolates skip limit = (
    length-take-le limit _,
    All-page (λ a. a.created_at) (λ a. a.tenant_id == current_user.tenant_id && is_live a) skip
        limit w.agent_configs,
  )
