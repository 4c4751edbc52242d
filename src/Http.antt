-- ===== src/Http.antt =====
-- internal/infrastructure/http: the handlers over the services, and the router.
pub mod Message
pub mod StoreWebhook
pub mod MarketplaceRevoke
pub mod Entitlement
pub mod Timeline
pub mod MockCarrier
pub mod Router
