-- ===== src/SpendGate.antt =====
-- src/spend_gate.rs: which of the wallet's coins `createAction` may spend.
pub mod Outpoint
pub mod Word
pub mod Hold
pub mod Store
pub mod Assess
pub mod Named
pub mod Gated
mod Tests
