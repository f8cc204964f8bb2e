-- ===== src/Api/Evaluation.antt =====
-- src/backend/api/routes/evaluation.py: the handlers that read and write evaluation runs. A handler
-- takes the world and gives its response and the world; each `db.commit()` ends a transaction, and
-- a handler with two transactions is the composition of two functions.
-- `now` is the database's clock, `new_id` the key that `uuid4` gave.
use crucible.Base.{
  ℕ, String, Bool, false, [], ◌∷◌, ◌++◌, none, some, ◌==◌, leb, ◌&&◌, if◌then◌else◌, count, find?,
}
use crucible.Db.Run.{
  EvaluationRun, RunConfig, RunStatus, is_active, is_terminal, enqueue_failed, Exn,
}
use crucible.Db.Table.{update, delete}
use crucible.Db.Models.{World, User, execute_evaluation_run, delete_s3_traces}
use crucible.Api.Http.{
  Response, ok, http_exception, Delay, accepted, refused, Enqueue, enqueued, not_enqueued,
  not_recorded, internal_server_error, agent_config_not_found, concurrency_limit,
  enqueue_evaluation_failed, run_not_found, cannot_cancel_terminal, enqueue_cleanup_failed,
}

-- src/backend/schemas/evaluation.py
pub record EvaluationRunCreate (F : Type 0) : Type 0 where
  pub agent_config_id : ℕ
  pub name : String
  pub run_config : RunConfig F

module _ {F : Type 0} where
  abbrev pub has_id : ℕ → EvaluationRun F → Bool
  has_id run_id r = r.id == run_id

  -- `EvaluationRun.id == run_id, EvaluationRun.tenant_id == current_user.tenant_id`
  abbrev pub is_owned : ℕ → User → EvaluationRun F → Bool
  is_owned run_id current_user r = has_id run_id r && r.tenant_id == current_user.tenant_id

  -- the runs that count against the concurrency limit of a tenant
  abbrev pub is_active_of : ℕ → EvaluationRun F → Bool
  is_active_of tenant_id r = r.tenant_id == tenant_id && is_active r.status

  abbrev pub active_count : ℕ → World F → ℕ
  active_count tenant_id w = count (is_active_of tenant_id) w.runs

  abbrev pub update_run : ℕ → (EvaluationRun F → EvaluationRun F) → World F → World F
  update_run run_id f w = record w { runs = update (has_id run_id) f w.runs }

  -- the row that the constructor `EvaluationRun(…)` and the column defaults give
  abbrev pub new_run : EvaluationRunCreate F → (agent_id tenant_id new_id now : ℕ) → EvaluationRun F
  new_run run_in agent_id tenant_id new_id now = record {
    id = new_id;
    tenant_id = tenant_id;
    agent_config_id = agent_id;
    created_by = none;
    name = run_in.name;
    status = RunStatus.pending;
    run_config = run_in.run_config;
    celery_task_id = none;
    started_at = none;
    completed_at = none;
    last_heartbeat_at = none;
    error_message = none;
    total_scenarios = 0;
    passed_scenarios = 0;
    failed_scenarios = 0;
    avg_score = none;
    drift_profile = none;
    embedding_model_version = none;
    is_baseline = false;
    evolution_suggestions = none;
    created_at = now;
    updated_at = now;
  }

  -- The first transaction of `create_evaluation_run`, which holds the tenant's advisory lock from
  -- the count to the commit.
  unfoldable pub insert_run :
      EvaluationRunCreate F
      → User
      → (new_id now : ℕ) → World F
      → Response (EvaluationRun F) × World F
  insert_run run_in current_user new_id now w =
      elim (find? (λ a. a.id == run_in.agent_config_id && a.tenant_id == current_user.tenant_id)
        w.agent_configs) [
          | none ↦ (http_exception 404 agent_config_not_found, w)
          | some agent ↦
              if leb 2 (active_count current_user.tenant_id w)
              then (http_exception 429 concurrency_limit, w)
              else let db_run = new_run run_in agent.id current_user.tenant_id new_id now in
                (ok db_run, record w { runs = w.runs ++ db_run ∷ [] })
        ]

  -- `db_run.status = "failed"` with its message
  abbrev pub mark_unqueued : Exn → ℕ → EvaluationRun F → EvaluationRun F
  mark_unqueued e now r = record r {
    status = RunStatus.failed;
    error_message = some (enqueue_failed e);
    updated_at = now;
  }

  abbrev pub note_celery_task : ℕ → ℕ → EvaluationRun F → EvaluationRun F
  note_celery_task task_id now r = record r { celery_task_id = some task_id; updated_at = now }

  -- The second transaction: the task is handed to the broker, and the run records its id. Where one
  -- of these raises, also after the broker has taken the task, the run is marked as failed.
  unfoldable pub record_enqueue :
      Enqueue → ℕ → EvaluationRun F → World F → Response (EvaluationRun F) × World F
  record_enqueue (enqueued task_id) now db_run w =
      let w' = update_run db_run.id (note_celery_task task_id now) w in
      (
        ok (note_celery_task task_id now db_run),
        record w' { broker = w.broker ++ execute_evaluation_run db_run.id ∷ [] },
      )
  record_enqueue (not_enqueued e) now db_run w =
      (http_exception 500 enqueue_evaluation_failed, update_run db_run.id (mark_unqueued e now) w)
  record_enqueue (not_recorded task_id stored marked e) now db_run w =
      let f : EvaluationRun F → EvaluationRun F =
        λ r. if stored then note_celery_task task_id now r else r in
      let g : EvaluationRun F → EvaluationRun F =
        λ r. if marked then mark_unqueued e now r else r in
      let w' = update_run db_run.id (λ r. g (f r)) w in
      (
        http_exception 500 (if marked then enqueue_evaluation_failed else internal_server_error),
        record w' { broker = w.broker ++ execute_evaluation_run db_run.id ∷ [] },
      )

  abbrev then_enqueue :
      Enqueue → ℕ → Response (EvaluationRun F) × World F → Response (EvaluationRun F) × World F
  then_enqueue outcome now (ok db_run, w) = record_enqueue outcome now db_run w
  then_enqueue outcome now (http_exception c d, w) = (http_exception c d, w)

  -- Both transactions, with no other process in between; `Lifecycle` composes them with any.
  unfoldable pub create_evaluation_run :
      EvaluationRunCreate F
      → User
      → (new_id now : ℕ) → Enqueue
      → World F
      → Response (EvaluationRun F) × World F
  unfolding insert_run record_enqueue
  create_evaluation_run run_in current_user new_id now outcome w =
      then_enqueue outcome now (insert_run run_in current_user new_id now w)

  unfoldable pub get_evaluation_run : ℕ → User → World F → Response (EvaluationRun F)
  get_evaluation_run run_id current_user w = elim (find? (is_owned run_id current_user) w.runs) [
    | none ↦ http_exception 404 run_not_found
    | some run ↦ ok run
  ]

  abbrev pub mark_cancelled : ℕ → EvaluationRun F → EvaluationRun F
  mark_cancelled now r = record r { status = RunStatus.cancelled; updated_at = now }

  -- `read` are the tables when the run is selected, which is done without a lock, and `w` the tables
  -- when it is written: the status is tested on the row read, and the row is then updated by its key
  -- alone. An update that meets no row raises.
  unfoldable pub cancel_evaluation_run :
      ℕ → User → (now : ℕ) → (read w : World F) → Response (EvaluationRun F) × World F
  cancel_evaluation_run run_id current_user now read w =
      elim (find? (is_owned run_id current_user) read.runs) [
        | none ↦ (http_exception 404 run_not_found, w)
        | some run ↦
            if is_terminal run.status
            then (http_exception 400 cannot_cancel_terminal, w)
            else elim (find? (has_id run_id) w.runs) [
              | none ↦ (http_exception 500 internal_server_error, w)
              | some row ↦ (ok (mark_cancelled now row), update_run run_id (mark_cancelled now) w)
            ]
      ]

  -- `db.delete(run)`: the scenarios go with the run, and the foreign keys of traces and judgments
  -- cascade.
  abbrev pub delete_run : ℕ → World F → World F
  delete_run run_id w = record w {
    runs = delete (has_id run_id) w.runs;
    scenarios = delete (λ s. s.evaluation_run_id == run_id) w.scenarios;
    trace_metadata = delete (λ t. t.evaluation_run_id == run_id) w.trace_metadata;
    judgments = delete (λ j. j.evaluation_run_id == run_id) w.judgments;
  }

  -- The S3 cleanup is handed to the broker first, and the row is deleted only if that went well.
  -- `read` are the tables when the run is selected, `w` those when it is deleted by its key.
  unfoldable pub delete_evaluation_run :
      ℕ → User → Delay → (read w : World F) → Response (Unit {0}) × World F
  delete_evaluation_run run_id current_user delay read w =
      elim (find? (is_owned run_id current_user) read.runs) [
        | none ↦ (http_exception 404 run_not_found, w)
        | some run ↦ elim delay [
          | refused e ↦ (http_exception 500 enqueue_cleanup_failed, w)
          | accepted task_id ↦
              let w' = delete_run run_id w in
              let task = delete_s3_traces run_id current_user.tenant_id in
              (ok tt, record w' { broker = w.broker ++ task ∷ [] })
        ]
      ]
