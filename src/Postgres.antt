-- ===== src/Postgres.antt =====
-- internal/infrastructure/postgres: the tables, the generated queries and the client over them.
pub mod Models
pub mod Session
pub mod Queries
pub mod Types
pub mod Client
