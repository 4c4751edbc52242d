-- ===== src/Domain.antt =====
-- internal/domain: the payloads, their validation and the rules on a single entitlement.
pub mod Error
pub mod Entitlement
pub mod Webhook
pub mod Revoke
pub mod Carrier
pub mod Timeline
