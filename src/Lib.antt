-- ===== src/Lib.antt =====
-- A verification library for bsv-wallet-cli, a headless BSV wallet. It models the parts that
-- decide: which coins an action may spend, what the network knows of a posted transaction, what
-- the callback relay hands out and what a wallet makes of it, what a wallet refuses to retire,
-- which transactions it gives up and what it then takes back, what the tracker's guard says of a
-- coin's creator, and the script that locks a gift.
--
-- The parts and their files:
-- * SpendGate is src/spend_gate.rs. SpendGate/Outpoint is `parse_outpoint`; SpendGate/Word is
--   `AllowPending`, as a request (`from_json`) or a command (`from_cli`) names it; SpendGate/Hold
--   is `hold_reason` on a `CreatorReading` of src/tracker_host.rs; SpendGate/Store has the tables
--   and the queries `candidates` and `locked`; SpendGate/Assess is `assess_inner` and
--   `cap_offer`; SpendGate/Named is `assess_named` and `check_scope`; SpendGate/Gated is
--   `create_action` with `run_gated` and `refusal`.
-- * BroadcastVerify is src/broadcast_verify.rs. BroadcastVerify/Probe is what one source answers;
--   BroadcastVerify/Indexes is `ask_chain_indexes`; BroadcastVerify/Rounds is `verify_report`;
--   BroadcastVerify/Plane is `BroadcastPlane` with `arc_mode_for` and `arcade_url_for` of
--   src/services_env.rs; BroadcastVerify/Sources is `build_sources`; BroadcastVerify/Schedule is
--   `delay_before_round` and `absence_window`.
-- * Relay is src/relay.rs: `arc_callback`, `pull` and `register`.
-- * Guard/Retire is src/retire_guard.rs and `post_word` of src/server/post_word.rs, which asks
--   it; Guard/Spend is `run` of src/spend_guard.rs.
-- * Cleanup is src/commands/cleanup_abandoned.rs, with `tally` and `default_basket_sats` of
--   src/commands/balance.rs: Cleanup/Store is the tables and the queries, Cleanup/Decide the
--   verdicts as values, Cleanup/Pass the first half of `reconcile_with`, Cleanup/Write the writes
--   and Cleanup/Run the whole. Its presence probe is a report of BroadcastVerify/Rounds, and it
--   asks Guard/Retire whether a broadcaster took a transaction.
-- * Tracker is `read_creators` of src/tracker_host.rs, which the gate asks about coins:
--   Tracker/Headers is `HeaderSnapshot`, `OldBranch` and `NewBranch`, Tracker/Rows is
--   `TrackedRow` and its `replay`, and Tracker/Creators is the guard, the depth, the open splits
--   and the readings.
-- * Reconcile is src/broadcast_reconcile.rs: Reconcile/Tables is `needs_probe` and the queries,
--   Reconcile/Retire is `retire_never_announced` and `run_sweep`, Reconcile/Pass is `run_pass`.
--   It reads the reports of BroadcastVerify/Rounds and asks Guard/Retire before it retires.
-- * FollowUp is src/server/broadcast_follow_up.rs, which does the same for one posted
--   transaction, with the part of `create_action` in src/server/handlers.rs that calls it:
--   FollowUp/Requests is about that part.
-- * Ingest is src/arc_ingest.rs and the route `arc_callback` of src/server/mod.rs; Ingest/Poller
--   is the poller of a relay's queue in src/commands/daemon_tenant.rs, which asks the `pull` of
--   Relay. Ingest/Pages is what the theorem on polls needs of a queue in order.
-- * Gift/Covenant is src/gift/covenant.rs.
-- Prelude has the shared tests, results, lists and texts. The files below a part's own prove what
-- they are named for, and each part's Tests file applies its theorems to concrete states.
--
-- How the code is read: a function of the source has the same name here. A loop over a sequence
-- is a recursion on a list, and `verify_report` recurses on the rounds that are left. One loop
-- runs on fuel: the covenant's loop over a number's bytes has eight rounds, one for each byte of
-- a 64-bit number, and a theorem below says that they suffice. A text is the list of its code
-- points, in Relay of its bytes; a script is its bytes; an error's message is a constructor with
-- what it quotes, where no code reads it. The database is a record of lists of rows. The gate
-- reads it at six moments, between which other calls may write it; the clean-up reads one state
-- of it (`read`) and its writes begin on another (`later`). In Reconcile, FollowUp and Ingest it
-- is a `World`, of which they read tables and records and which only the toolbox changes. In Ingest
-- an event is of a type of the toolbox's own (`Event`), whatever that is.
--
-- Parameters, which the theorems hold for whatever they are: the toolbox's
-- `create_action_offering` (`door`, by the number of the call), `read_creators` of
-- src/tracker_host.rs (`read`, likewise), the HTTP sources (`look`, by round), the clock
-- (`past_deadline`), `reserve_inputs` of src/respend.rs, the shared rotation counter
-- (`rotation`), the toolbox's reading of a `txStatus` (`Vocabulary`), its mainnet Arcade URL and
-- its reading and application of an Arcade event (`Toolbox` of Ingest), serde's reading of a JSON
-- text (`from_slice`, `json_of`), the clean-up's two probes (`probe` and `input_spend`),
-- the covenant's compiled template, which is generated, the crate bsv_tracker and the SDK's
-- merkle paths (`Machine`), the header service, and the toolbox's operations on the store where a
-- part only calls them (`Toolbox`). The first theorem on a full read supposes that an answer of
-- `read` lists the creators it was asked for; the second has `read_creators` in that place and
-- supposes nothing of it. No other theorem supposes anything of them.
--
-- Bounds: a sum of coins is a number without bound, as all coins there are sum to less than
-- 2 ^ 51; the sum of a request's outputs wraps at 2 ^ 64, `saturating_add` keeps its limit, and an
-- output's index is taken modulo 2 ^ 32, as the source casts it. The ages that the clean-up
-- compares are those of rows that its queries found old enough, so none is negative. Subtraction
-- is used only where the source's indexes are in order, or saturates there too.
--
-- Not modelled: faults of the database, logging and pauses, the tracker's passes (`tick`,
-- `deliver_chain_event`), the listings and the JSON of a refusal, a gift's claiming transaction,
-- which the SDK signs, and the other commands and the HTTP server, which call these parts.
mod Prelude
pub mod SpendGate
pub mod BroadcastVerify
pub mod Relay
pub mod Guard
pub mod Gift
pub mod Cleanup
pub mod Tracker
pub mod Reconcile
pub mod FollowUp
pub mod Ingest
