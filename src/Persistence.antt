-- ===== src/Persistence.antt =====
-- src/persistence: what the gateway keeps. `Types` has the records and the interface that the
-- session manager is written against, `Memory` the store without dependencies.
pub mod Types
pub mod Memory
pub mod Postgres
pub mod Redis
pub mod PostgresRedis
