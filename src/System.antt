-- ===== src/System.antt =====
-- The API server and the workers over one database: any order of their transactions.
pub mod Sweep
pub mod Claims
pub mod History
pub mod Deduplication
