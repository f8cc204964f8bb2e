-- ===== src/Lib.antt =====
-- Crucible: the backend of a platform that evaluates AI agents.
--
-- A user of a tenant creates an evaluation run over the API. The API stores the run and hands a
-- task to Celery's broker. A worker claims the run, streams the LangGraph pipeline of five nodes
-- (generate, simulate, judge, analyze, evolution), publishes an event for each update, saves the
-- results and writes the terminal status. A beat process sweeps runs whose worker is gone. All of
-- them share the tables, and work on them at the same time.
--
-- Files and code (paths below src/backend):
--   Base, Base/*       shared names, lists over native numbers, texts, floats as an interface
--   Db/*               db/models/*.py, the rows; `update`, `delete`, sorting and row counts of SQL
--   Db/Session         db/session.py: `get_db`
--   Db/Declared, Db/Migrations   the tables of db/models/*.py, the commands of db/migrations/versions,
--                      on the schema of Db/Schema
--   Api/*              api/routes/evaluation.py: create, list, get, cancel, delete, baseline
--                      (Evaluation, Baseline), tickets and events of the stream (Stream)
--   Api/*, further     api/routes/agent_config.py (AgentConfig), api/routes/operations.py
--                      (Operations), api/deps.py and api/routes/auth.py (Auth, Register),
--                      schemas/user.py (Password), schemas/evaluation.py (Schemas)
--   Agents/*           agents/state.py, agents/orchestrator.py: the state, its merge, the routing;
--                      the graph with its nodes (Pipeline); the nodes: generator.py,
--                      simulator.py, judge.py, evolution.py, and analyzer.py (Baseline, Drift,
--                      Analyzer)
--   Core/*             core/rate_limit.py, core/events.py, core/security.py, core/config.py
--                      (Settings), the breaker of connectors/target_agent.py, and the counters
--                      of Redis
--   Connectors/*       connectors/target_agent.py (Target), connectors/llm.py (Llm),
--                      connectors/s3.py (S3), core/vector_db.py (VectorDb)
--   Worker/*           worker/tasks.py: `_execute_evaluation_run_async` (Claim, Stream, Tasks,
--                      Execution), `_persist_final_state` (Persist); worker/beat.py (Beat), and the
--                      deletion of traces (Cleanup)
--   Lifecycle, its children   all transactions as a step relation, what they keep, and that an
--                      execution of the worker's task is made of them
--   Tests/*            concrete data and runs
--
-- A handler is a function from the world (the tables and the broker's queue) to its response and
-- the world; each commit ends a transaction, and `Lifecycle.Step` has one constructor for each
-- transaction, placed where it commits. PostgreSQL isolates transactions by READ COMMITTED: a handler
-- that decides on rows which it has read before it writes takes the tables of that time as
-- arguments (`cancel_evaluation_run`, `delete_evaluation_run`, `set_golden_baseline`), and a step
-- may take any; the conditional updates of the workers and of the sweep test the row that they
-- write. The worker's local variables are a record, its statements are actions that return or
-- raise; what other processes commit in between is part of the
-- environment. What is kept outside the tables has a state of its own: a counter or a list of
-- Redis with its expiry, the objects of the bucket, the points of the vector database. Identifiers
-- and times are numbers. Floats are an interface of operations about which nothing is assumed.
--
-- The libraries that the code calls are parameters: the HTTP client and name resolution, LiteLLM and
-- tiktoken, PyJWT, passlib, Fernet, numpy, and the services of S3 and Qdrant. A theorem that relies
-- on what such a library promises has this as a hypothesis (`IsJwt`, `IsSound`, `IsUuidText`).
--
-- Bounds: the graph runs on the recursion limit of LangGraph, of which five steps are enough. The
-- simulator's loop has the five turns of the code, and the retries the three attempts. The loop for
-- a slug has one round more than there are tenants, which is enough. No other loop is bounded.
--
-- Not modelled: HTTP and SQL themselves, telemetry, the reading of the environment, the wiring of the
-- application, the subscription of an event stream, presigned URLs. Of PostgreSQL's data
-- definition only what the migrations use is written out.
pub mod Base
pub mod Db
pub mod Api
pub mod Agents
pub mod Worker
pub mod Lifecycle
pub mod Core
pub mod Connectors
pub mod Tests
