-- ===== src/Worker/Cleanup.antt =====
-- The deletion of traces from S3: `_cleanup_orphaned_traces_async` of src/backend/worker/beat.py and
-- `delete_s3_traces` of src/backend/worker/tasks.py. A deletion that raises is logged, and leaves
-- what it deleted until then: `pages_done` is the number of pages, where it raises.
pub mod Orphans
pub mod Keeps
use crucible.Base.{ℕ, String, List, [], ◌∷◌, Option, none, some, take}
use crucible.Db.Run.{EvaluationRun}
use crucible.Db.Models.{World}
use crucible.Connectors.S3.{Object, prefix_of, keys_with, delete_pages, delete_prefix}
use crucible.Worker.Beat.{orphan_runs}

module _ (str : ℕ → String) (paginate : List String → List (List String)) where
  unfoldable pub delete_s3_traces :
      (pages_done : Option ℕ) (run_id tenant_id : ℕ) → List Object → List Object
  unfolding delete_prefix
  delete_s3_traces none run_id tenant_id bucket =
      delete_prefix paginate (prefix_of str tenant_id run_id) bucket
  delete_s3_traces (some n) run_id tenant_id bucket =
      delete_pages (take n (paginate (keys_with (prefix_of str tenant_id run_id) bucket))) bucket

  module _ (pages_done : (run_id : ℕ) → Option ℕ) where
    -- the loop over the orphan runs, whose body is that of the task
    unfoldable pub clean_runs : {F : Type 0} → List (EvaluationRun F) → List Object → List Object
    unfolding delete_s3_traces
    clean_runs [] bucket = bucket
    clean_runs (run ∷ runs) bucket =
        clean_runs runs (delete_s3_traces (pages_done run.id) run.id run.tenant_id bucket)

    unfoldable pub cleanup_orphaned_traces :
        {F : Type 0} → (now : ℕ) → World F → List Object → List Object
    unfolding orphan_runs clean_runs
    cleanup_orphaned_traces now w bucket = clean_runs (orphan_runs now w) bucket
