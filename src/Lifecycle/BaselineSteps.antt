-- ===== src/Lifecycle/BaselineSteps.antt =====
-- How many golden baselines an agent configuration has after any transactions:
-- src/backend/api/routes/evaluation.py, src/backend/worker/tasks.py and src/backend/worker/beat.py.
