-- ===== src/Reconcile.antt =====
-- The broadcast reconciler: src/broadcast_reconcile.rs.
pub mod Tables
pub mod Retire
pub mod Pass
pub mod Evidence
pub mod Roots
pub mod Sweeps
pub mod Steps
mod Tests
