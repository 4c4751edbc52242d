-- ===== src/Worker.antt =====
-- internal/infrastructure/worker: the drain loops of the background jobs.
pub mod Schedule
pub mod Notifications
pub mod Expiration
pub mod CarrierPolling
