-- ===== src/Gift.antt =====
-- The time-locked gift (src/gift): the covenant's locking script.
pub mod Covenant
mod Tests
