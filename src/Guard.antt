-- ===== src/Guard.antt =====
-- The guards on what the wallet has posted: src/retire_guard.rs,
-- src/server/post_word.rs and src/spend_guard.rs, over the rows of the store that they read.
pub mod Retire
pub mod Spend
mod Tests
