-- ===== src/Db.antt =====
-- The database: src/backend/db.
pub mod Run
pub mod Session
pub mod Table
pub mod Schema
pub mod Declared
pub mod Migrations
pub mod Models
pub mod Order
