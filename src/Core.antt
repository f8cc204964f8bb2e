-- ===== src/Core.antt =====
-- What the processes share through Redis: src/backend/core, src/backend/connectors.
pub mod Redis
pub mod RateLimit
pub mod Breaker
pub mod Events
pub mod Security
pub mod Settings
