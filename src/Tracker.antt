-- ===== src/Tracker.antt =====
-- The spend guard over the creators of coins: `read_creators` of src/tracker_host.rs, with the
-- views of the headers and the replay of a stored row that it uses. The crate bsv_tracker, which
-- steps a transaction's state, and the SDK's merkle paths are parameters (`Machine`).
pub mod Headers
pub mod Rows
pub mod Creators
pub mod Offered
pub mod Listed
mod Tests
