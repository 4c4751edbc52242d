-- ===== src/Invariant.antt =====
-- What every operation of the application layer keeps of the tables, from what its statements keep:
-- the interface between an invariant and the services.
pub mod Preserves
pub mod Statements
pub mod Services
pub mod Polling
pub mod Channels
pub mod Keyed
pub mod Sources
pub mod Daily
pub mod Recorded
