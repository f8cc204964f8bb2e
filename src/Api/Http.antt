-- ===== src/Api/Http.antt =====
-- What a FastAPI handler returns or raises, and what Celery's `.delay` may do.
use crucible.Base.{ℕ, Bool}
use crucible.Db.Run.{Exn}

-- The `detail` texts of the `HTTPException`s.
pub data Detail : Type 0 where
  agent_config_not_found concurrency_limit enqueue_evaluation_failed : Detail
  run_not_found cannot_cancel_terminal enqueue_cleanup_failed : Detail
  only_completed_baseline score_too_low : Detail
  not_authenticated could_not_validate token_subject_missing invalid_subject_format : Detail
  user_not_found inactive_user not_enough_privileges : Detail
  incorrect_credentials email_registered : Detail
  refresh_missing invalid_token_type invalid_token_subject invalid_refresh_token : Detail
  refresh_revoked too_many_requests invalid_ticket : Detail
  -- the answer to an exception that no handler catches
  internal_server_error : Detail

pub data Response (A : Type 0) : Type 0 where
  ok : A → Response A
  http_exception : (status_code : ℕ) → Detail → Response A

-- `task.delay(…)`: the broker takes the message and gives its id, or the call raises.
pub data Delay : Type 0 where
  accepted : (task_id : ℕ) → Delay
  refused : Exn → Delay

-- `task.delay(…)` with the statements behind it that store the task's id: all succeed, the broker
-- refuses, or the commit or the refresh raises although the broker has the task. Then `stored`
-- tells whether the id was committed, and `marked` whether the commit of the failure succeeds.
pub data Enqueue : Type 0 where
  enqueued : (task_id : ℕ) → Enqueue
  not_enqueued : Exn → Enqueue
  not_recorded : (task_id : ℕ) (stored marked : Bool) → Exn → Enqueue
