-- ===== src/Lifecycle/Rows.antt =====
-- The abstract life of a run: which changes of a row are allowed, and which changes of the table
-- they add up to. src/backend/db/models/evaluation_run.py documents the states.
use crucible.Base.{
  arith, ℕ, ◌+◌, ◌<◌, ◌≡◌, refl, Bool, true, false, List, [], ◌∷◌, ◌++◌, none, count, All,
  if◌then◌else◌,
}
use crucible.Db.Run.{EvaluationRun, RunStatus, is_terminal, is_status}
use crucible.Db.Table.{update, delete}
use crucible.Api.Evaluation.{has_id, is_active_of}

-- The changes of a status. `enqueued` tells whether the broker has been given the run's task.
pub data StatusStep (enqueued : Bool) : RunStatus → RunStatus → Type 0 where
  stay : {s : RunStatus} → StatusStep enqueued s s
  -- a worker claims the run
  start : enqueued ≡ true → StatusStep enqueued RunStatus.pending RunStatus.running
  -- the creating handler could not hand the task to the broker, or not record that it has
  refuse : {s : RunStatus} → StatusStep enqueued s RunStatus.failed
  -- the user cancels a run that was not terminal when its row was read
  cancel : {s : RunStatus} → StatusStep enqueued s RunStatus.cancelled
  -- the worker's terminal update
  finish : {s : RunStatus} → is_terminal s ≡ true → StatusStep enqueued RunStatus.running s
  -- the same, over a cancellation that the worker has not seen
  overwrite :
      {s : RunStatus}
      → enqueued ≡ true
      → is_terminal s ≡ true
      → StatusStep enqueued RunStatus.cancelled s

pub is_status-running :
    (s : RunStatus) → is_status s RunStatus.running ≡ true → s ≡ RunStatus.running
is_status-running s h = ground arith

module _ {F : Type 0} where
  abbrev pub IsBalanced : EvaluationRun F → Type 0
  IsBalanced r = r.passed_scenarios + r.failed_scenarios ≡ r.total_scenarios

  -- What a step does to a row.
  pub record RowStep (enqueued : ℕ → Bool) (x y : EvaluationRun F) : Type 0 where
    pub id : y.id ≡ x.id
    pub tenant_id : y.tenant_id ≡ x.tenant_id
    pub agent_config_id : y.agent_config_id ≡ x.agent_config_id
    pub started_at : y.started_at ≡ x.started_at
    pub balanced : IsBalanced x → IsBalanced y
    pub status : StatusStep (enqueued x.id) x.status y.status

  abbrev pub Rows :
      (EvaluationRun F → EvaluationRun F → Type 0)
      → List (EvaluationRun F)
      → List (EvaluationRun F)
      → Type 0
  Rows R [] [] = Unit
  Rows R (x ∷ xs) (y ∷ ys) = R x y × Rows R xs ys
  Rows R [] (y ∷ ys) = ⊥
  Rows R (x ∷ xs) [] = ⊥

  -- What a step does to the table.
  pub data Change (enqueued : ℕ → Bool) (xs : List (EvaluationRun F))
      : List (EvaluationRun F) → Type 0 where
    rows : {ys : List (EvaluationRun F)} → Rows (RowStep enqueued) xs ys → Change enqueued xs ys
    append :
        (r : EvaluationRun F)
        → r.status ≡ RunStatus.pending
        → r.started_at ≡ none
        → IsBalanced r
        → count (has_id r.id) xs ≡ 0
        → enqueued r.id ≡ false
        → count (is_active_of r.tenant_id) xs < 2
        → Change enqueued xs (xs ++ r ∷ [])
    delete_id : (run_id : ℕ) → Change enqueued xs (delete (has_id run_id) xs)

  pub RowStep-stay : (enqueued : ℕ → Bool) (x : EvaluationRun F) → RowStep enqueued x x
  RowStep-stay enqueued x = record {
    id = refl;
    tenant_id = refl;
    agent_config_id = refl;
    started_at = refl;
    balanced = λ h. h;
    status = stay;
  }

  -- A row that keeps its keys and counters makes a step if its status does.
  pub RowStep-status :
      (enqueued : ℕ → Bool) (x y : EvaluationRun F)
      → (y.id ≡ x.id)
        × (y.tenant_id ≡ x.tenant_id)
        × (y.agent_config_id ≡ x.agent_config_id)
        × (y.started_at ≡ x.started_at)
        × (y.passed_scenarios ≡ x.passed_scenarios)
        × (y.failed_scenarios ≡ x.failed_scenarios)
        × (y.total_scenarios ≡ x.total_scenarios)
      → StatusStep (enqueued x.id) x.status y.status
      → RowStep enqueued x y
  RowStep-status enqueued x y (i, t, a, s, p, f, n) st = record {
    id = i;
    tenant_id = t;
    agent_config_id = a;
    started_at = s;
    balanced = λ h. rw (p, f, n) h;
    status = st;
  }

  pub Rows-refl :
      (enqueued : ℕ → Bool) (xs : List (EvaluationRun F)) → Rows (RowStep enqueued) xs xs
  Rows-refl enqueued [] = tt
  Rows-refl enqueued (x ∷ xs) = (RowStep-stay enqueued x, Rows-refl enqueued xs)

  pub Rows-update :
      (enqueued : ℕ → Bool) (p : EvaluationRun F → Bool) (f : EvaluationRun F → EvaluationRun F)
      (xs : List (EvaluationRun F))
      → All (λ x. p x ≡ true → RowStep enqueued x (f x)) xs
      → Rows (RowStep enqueued) xs (update p f xs)
  Rows-update enqueued p f [] h = tt
  Rows-update enqueued p f (x ∷ xs) (k, h) = (pick (p x) k, Rows-update enqueued p f xs h)
    where
      pick :
          (b : Bool)
          → (b ≡ true → RowStep enqueued x (f x))
          → RowStep enqueued x (if b then f x else x)
      pick true k = k refl
      pick false k = RowStep-stay enqueued x

  pub All-of {ℓ} :
      (P : EvaluationRun F → Type ℓ) (xs : List (EvaluationRun F))
      → ((x : EvaluationRun F) → P x)
      → All P xs
  All-of P [] h = tt
  All-of P (x ∷ xs) h = (h x, All-of P xs h)

  pub All-map {ℓ κ} :
      (P : EvaluationRun F → Type ℓ) (Q : EvaluationRun F → Type κ) (xs : List (EvaluationRun F))
      → ((x : EvaluationRun F) → P x → Q x)
      → All P xs
      → All Q xs
  All-map P Q [] f h = tt
  All-map P Q (x ∷ xs) f (p, h) = (f x p, All-map P Q xs f h)

  -- two updates, one after the other
  pub Rows-update-update :
      (enqueued : ℕ → Bool) (p q : EvaluationRun F → Bool) (f g : EvaluationRun F → EvaluationRun F)
      (xs : List (EvaluationRun F))
      → All (λ x. let y = if p x then f x else x in RowStep enqueued x (if q y then g y else y)) xs
      → Rows (RowStep enqueued) xs (update q g (update p f xs))
  Rows-update-update enqueued p q f g [] h = tt
  Rows-update-update enqueued p q f g (x ∷ xs) (k, h) =
      (k, Rows-update-update enqueued p q f g xs h)
