-- ===== src/Worker.antt =====
-- The Celery worker: src/backend/worker.
pub mod Result
pub mod Persist
pub mod Execution
pub mod Claim
pub mod Stream
pub mod Tasks
pub mod Beat
pub mod Cleanup
