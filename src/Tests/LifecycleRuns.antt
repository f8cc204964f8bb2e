-- ===== src/Tests/LifecycleRuns.antt =====
-- Transactions on concrete tables.
use crucible.Base.{ℕ, [], ◌∷◌, ◌≤◌, ◌≡◌, refl, true, none, some, arith}
use crucible.Db.Run.{RunStatus}
use crucible.Db.Models.{World}
use crucible.Api.Evaluation.{insert_run, active_count}
use crucible.Worker.Claim.{claim}
use crucible.Api.Baseline.{set_golden_baseline}
use crucible.Lifecycle.{Step, Reach, here, next, is_enqueued}
use crucible.Lifecycle.Rows.{Change, StatusStep}
use crucible.Lifecycle.Unique.{IdsUnique}
use crucible.Lifecycle.Invariant.{IsConsistent, Reach-IsConsistent}
use crucible.Lifecycle.Refines.{Step-Change}
use crucible.Lifecycle.Transitions.{Step-StatusStep}
use crucible.Lifecycle.Ownership.{claim_once}
use crucible.Tests.Data.{nat_floats, run_of, run_in, user, world}

world-IdsUnique : IdsUnique world.runs
world-IdsUnique i = ground arith

world-slots : (t : ℕ) → active_count t world ≤ 2
world-slots t = ground arith

world-IsConsistent : IsConsistent world
world-IsConsistent = record {
  ids = world-IdsUnique;
  slots = world-slots;
  balanced = (refl, (refl, tt));
  unstarted = (refl, (refl, tt));
  traced = ((λ e. refl), ((λ e. refl), tt));
}

-- a second run of the tenant
abbrev created : World ℕ
unfolding insert_run
created = (insert_run run_in user 9 50 world).1

create_9 : Step world created
unfolding created
create_9 = Step.create run_in user 9 50 refl refl

abbrev claimed : World ℕ
claimed = record world {
  runs =
      record (run_of 7 RunStatus.pending) { status = RunStatus.running; updated_at = 60 }
      ∷ run_of 8 RunStatus.completed
      ∷ [];
}

claimed_7 : claim 7 60 world ≡ some claimed
unfolding claim
claimed_7 = refl

claim_7 : Step world claimed
claim_7 = Step.take_claim 7 60 refl claimed_7

-- another process creates a run after the claim
abbrev claimed_created : World ℕ
unfolding insert_run
claimed_created = (insert_run run_in user 9 70 claimed).1

create_after : Reach claimed claimed_created
unfolding claimed_created
create_after = next here (Step.create run_in user 9 70 refl refl)

Reach-IsConsistent_example : IsConsistent created
Reach-IsConsistent_example = Reach-IsConsistent (next here create_9) world-IsConsistent

Step-Change_example : Change (λ i. is_enqueued i world) world.runs created.runs
Step-Change_example = Step-Change create_9

claim_once_example : claim 7 90 claimed_created ≡ none
claim_once_example = claim_once 7 60 90 world-IsConsistent refl claimed_7 create_after

-- run 8 becomes the golden baseline
abbrev pinned_8 : World ℕ
unfolding set_golden_baseline
pinned_8 = (set_golden_baseline 8 user 80 world world world).1

pin_8 : Reach world pinned_8
unfolding pinned_8
pin_8 = next here (Step.set_baseline 8 user 80 world world)

Step-StatusStep_example : StatusStep true RunStatus.pending RunStatus.running
Step-StatusStep_example = Step-StatusStep 7 claim_7 refl refl
