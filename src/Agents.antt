-- ===== src/Agents.antt =====
-- The evaluation graph: src/backend/agents.
pub mod State
pub mod Orchestrator
pub mod Retry
pub mod Generator
pub mod Simulator
pub mod Judge
pub mod Evolution
pub mod Baseline
pub mod Drift
pub mod Analyzer
pub mod Pipeline
