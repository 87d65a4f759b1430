-- ===== src/Cleanup.antt =====
-- The clean-up of abandoned transactions: src/commands/cleanup_abandoned.rs.
pub mod Store
pub mod Decide
pub mod Pass
pub mod Write
pub mod Run
pub mod Doomed
pub mod Frames
pub mod Failed
pub mod Released
pub mod Phantoms
pub mod Vouched
mod Tests
