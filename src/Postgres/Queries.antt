-- ===== src/Postgres/Queries.antt =====
-- internal/infrastructure/postgres/gen/*.sql.go: each statement as a function of NOW() and the
-- tables. A violated CHECK of the schema is `err violation`.
pub mod Limits
pub mod Entitlements
pub mod CarrierClaims
pub mod Notifications
pub mod Events
pub mod AuditLogs
