-- ===== src/Tests.antt =====
-- Runs of the model at concrete inputs, and an instance of each theorem at one of them.
mod World
mod Entitlements
mod Webhook
mod Sweep
mod Services
mod Revocation
mod Http
mod System
mod Carrier
mod Interleaved
