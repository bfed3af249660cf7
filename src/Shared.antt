-- ===== src/Shared.antt =====
-- What the services share.
pub mod Http
pub mod Kafka
pub mod VectorIds
pub mod Security
pub mod Qdrant
pub mod VectorStore
pub mod Secrets
pub mod Startup
