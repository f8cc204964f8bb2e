-- ===== src/Api.antt =====
-- The API's handlers: src/backend/api.
pub mod Http
pub mod Evaluation
pub mod Baseline
pub mod AgentConfig
pub mod Auth
pub mod Operations
pub mod Isolation
pub mod Stream
pub mod Password
pub mod Schemas
pub mod Register
