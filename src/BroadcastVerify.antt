-- ===== src/BroadcastVerify.antt =====
-- src/broadcast_verify.rs: whether a transaction just broadcast reached the network.
pub mod Probe
pub mod Plane
pub mod Sources
pub mod Schedule
pub mod Indexes
pub mod Rounds
mod Tests
