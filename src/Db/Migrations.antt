-- ===== src/Db/Migrations.antt =====
-- src/backend/db/migrations/versions.
pub mod Tables
pub mod Initial
pub mod DeletedAt
pub mod Remediations
pub mod Heartbeat
pub mod Operations
pub mod Reversal
pub mod Agreement
