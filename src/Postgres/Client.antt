-- ===== src/Postgres/Client.antt =====
-- internal/infrastructure/postgres/client.go. A client is its query handle: inside a transaction
-- (`tx` set) the handle carries the NOW() of that transaction.
pub mod Upsert
pub mod Entitlements
pub mod Events
pub mod Notifications
pub mod AuditLogs
