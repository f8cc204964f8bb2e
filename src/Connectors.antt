-- ===== src/Connectors.antt =====
-- The clients of external services: src/backend/connectors, src/backend/core/vector_db.py.
pub mod Target
pub mod Llm
pub mod S3
pub mod VectorDb
