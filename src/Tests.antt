-- ===== src/Tests.antt =====
-- Concrete data, and the theorems applied to it.
pub mod Data
pub mod Texts
mod LifecycleRuns
mod GraphRuns
mod NodeRuns
mod ApiRuns
pub mod Codecs
mod AccountRuns
mod ConnectorRuns
mod AnalyzerRuns
mod RedisRuns
mod MiddlewareRuns
mod SchemaRuns
mod SettingsRuns
mod MigrationRuns
mod WorkerRuns
mod EndRuns
