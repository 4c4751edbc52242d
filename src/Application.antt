-- ===== src/Application.antt =====
-- internal/application: the services over the database client.
pub mod StoreWebhook
pub mod MarketplaceRevoke
pub mod CarrierPolling
pub mod Expiration
pub mod Notifications
pub mod EntitlementQuery
pub mod Timeline
