-- ===== src/Audit.antt =====
-- The audit trail against the projection (README.md, "Store State and Audit Consistency").
pub mod Trail
pub mod Upsert
pub mod Claims
pub mod Services
pub mod Fates
pub mod Sweep
pub mod Interleaved
