-- ===== src/FollowUp.antt =====
-- The follow-up of a broadcast: src/server/broadcast_follow_up.rs, and what `create_action` of
-- src/server/handlers.rs makes of it. The store is a `World` that the
-- toolbox's operations change; a write of theirs that fails is logged and changes what it changed.
pub mod Acts
pub mod Requests
mod Tests
use bsv_wallet_cli.Prelude.{
  ℕ, Option, none, some, Bool, true, false, ◌&&◌, ◌||◌, List, [], ◌∷◌, if◌then◌else◌, is_some, any,
}
use bsv_wallet_cli.Prelude.Text.{Text, codes, text_eq}
use bsv_wallet_cli.Guard.Retire.{Records, TxRow, broadcaster_took}
use bsv_wallet_cli.BroadcastVerify.Probe.{NetworkEvidence, seen, mined}
use bsv_wallet_cli.BroadcastVerify.Rounds.{
  PresenceReport, Provider, Verification, confirmed, verdict_rejected, inconclusive,
}

pub data BroadcastDisposition : Type 0 where
  not_broadcast accepted_broadcast ambiguous_broadcast : BroadcastDisposition

-- The toolbox's status of a sent transaction.
pub data SendStatus : Type 0 where
  send_unproven send_sending send_failed : SendStatus

-- What the source reads of the toolbox's `CreateActionResult`.
pub record CreateActionResult : Type 0 where
  pub txid : Option Text
  pub has_signable_transaction : Bool
  pub send_with_results : Option (List (Text × SendStatus))

pub entry_of : Text → List (Text × SendStatus) → Option SendStatus
entry_of txid [] = none
entry_of txid ((t, s) ∷ rs) = let rest = entry_of txid rs in if text_eq t txid then some s else rest

pub entry_in : Text → Option (List (Text × SendStatus)) → Option SendStatus
entry_in txid none = none
entry_in txid (some rs) = entry_of txid rs

of_entry : Option SendStatus → BroadcastDisposition
of_entry (some send_unproven) = accepted_broadcast
of_entry _ = ambiguous_broadcast

of_txid : CreateActionResult → Option Text → BroadcastDisposition
unfolding of_entry entry_in entry_of
of_txid result none = not_broadcast
of_txid result (some txid) = of_entry (entry_in txid result.send_with_results)

unfoldable pub disposition : CreateActionResult → Bool → Bool → BroadcastDisposition
unfolding of_txid of_entry entry_in entry_of
disposition result no_send accept_delayed =
    if no_send || accept_delayed || result.has_signable_transaction
    then not_broadcast
    else of_txid result result.txid

is_sending : SendStatus → Bool
is_sending send_sending = true
is_sending _ = false

any_sending : Text → Option (List (Text × SendStatus)) → Bool
any_sending txid none = false
any_sending txid (some rs) =
    any (λ (r : Text × SendStatus). if text_eq r.0 txid then is_sending r.1 else false) rs

unfoldable pub sending : Option (List (Text × SendStatus)) → Text → Bool
unfolding any_sending is_sending
sending results txid = any_sending txid results

pub data FollowUp : Type 0 where
  proceed follow_rejected : FollowUp

pub data RetireOutcome : Type 0 where
  retire_restored : ℕ → ℕ → RetireOutcome
  retire_alive : RetireOutcome

-- The toolbox's operations on the store; what is read of it is `none` where it could not be, and an
-- outcome is `none` where there was nothing to retire or the retire failed.
pub record Toolbox (World : Type 0) : Type 0 where
  pub records : World → Option Records
  pub transactions : World → Option (List TxRow)
  pub mark_seen_by : Text → Provider → World → World
  pub record_mined : Text → Provider → World → World
  pub record_seen_many : Provider → List Text → World → World
  pub retire_undeliverable_txid : Text → World → World × Option RetireOutcome

-- The request's answer, the store as it is answered, and what a task left running does later.
pub record Followed (World : Type 0) : Type 0 where
  pub answer : FollowUp
  pub world : World
  pub background : World → World

-- What `createAction` does next: it fails the request or answers it.
pub record Handled (World : Type 0) : Type 0 where
  pub fails : Bool
  pub world : World
  pub background : World → World

is_txid_row : Text → Option Text → Bool
is_txid_row txid none = false
is_txid_row txid (some t) = text_eq t txid

unfoldable pub status_of : Option (List TxRow) → Text → Option Text
unfolding is_txid_row
status_of none txid = none
status_of (some []) txid = none
status_of (some (t ∷ ts)) txid =
    let rest = status_of (some ts) txid in if is_txid_row txid t.txid then some t.status else rest

abbrev is_failed : Option Text → Bool
is_failed none = false
is_failed (some status) = text_eq status (codes "failed")

pub is_rejected : FollowUp → Bool
is_rejected follow_rejected = true
is_rejected proceed = false

module _ {World : Type 0} (toolbox : Toolbox World) where
  if_mined : Text → Provider → NetworkEvidence → World → World
  if_mined txid p seen w = w
  if_mined txid p mined w = toolbox.record_mined txid p w

  credit_ancestors : Provider → List Text → World → World
  credit_ancestors p [] w = w
  credit_ancestors p (a ∷ ancestors) w = toolbox.record_seen_many p (a ∷ ancestors) w

  unfoldable pub record_evidence :
      Text → List Text → Provider → Option NetworkEvidence → World → World
  unfolding if_mined credit_ancestors
  record_evidence txid ancestors p none w = w
  record_evidence txid ancestors p (some e) w =
      credit_ancestors p ancestors (if_mined txid p e (toolbox.mark_seen_by txid p w))

  -- `none` where the records could not be read.
  unfoldable pub took : Text → Option Records → Option Bool
  took txid none = none
  took txid (some records) = some (broadcaster_took records txid)

  unfoldable pub retire_rejected_broadcast : Text → World → World × Option RetireOutcome
  retire_rejected_broadcast txid w = toolbox.retire_undeliverable_txid txid w

  unfoldable pub retire_untaken : Text → Option Bool → World → World
  retire_untaken txid (some false) w = (retire_rejected_broadcast txid w).0
  retire_untaken txid (some true) w = w
  retire_untaken txid none w = w

  unfoldable pub on_verdict : Text → Verification → World → World
  on_verdict txid verdict_rejected w = retire_untaken txid (took txid (toolbox.records w)) w
  on_verdict txid confirmed w = w
  on_verdict txid inconclusive w = w

  unfoldable pub apply_presence_report : Text → List Text → PresenceReport → World → World
  apply_presence_report txid ancestors report w =
      on_verdict txid report.verification
        (record_evidence txid ancestors report.evidence_provider report.evidence w)

  answer_of : Verification → FollowUp
  answer_of verdict_rejected = follow_rejected
  answer_of confirmed = proceed
  answer_of inconclusive = proceed

  -- An accepted broadcast is verified by a task of its own, an ambiguous one before the answer.
  unfoldable pub follow_up :
      BroadcastDisposition → Text → List Text → PresenceReport → World → Followed World
  unfolding answer_of
  follow_up not_broadcast txid ancestors report w = record {
    answer = proceed;
    world = w;
    background = λ later. later;
  }
  follow_up accepted_broadcast txid ancestors report w = record {
    answer = proceed;
    world = w;
    background = apply_presence_report txid ancestors report;
  }
  follow_up ambiguous_broadcast txid ancestors report w = record {
    answer = answer_of report.verification;
    world = apply_presence_report txid ancestors report w;
    background = λ later. later;
  }

  -- `SELECT status FROM transactions`; a fault is no status.
  unfoldable pub tx_status : Text → World → Option Text
  tx_status txid w = status_of (toolbox.transactions w) txid

  handle_txid :
      BroadcastDisposition → Option Text → List Text → PresenceReport → World → Handled World
  unfolding is_rejected
  handle_txid d none ancestors report w = record {
    fails = false;
    world = w;
    background = λ later. later;
  }
  handle_txid d (some txid) ancestors report w =
      let followed = follow_up d txid ancestors report w in
      record {
        fails = is_rejected followed.answer && is_failed (tx_status txid followed.world);
        world = followed.world;
        background = followed.background;
      }

  -- The part of `create_action` in src/server/handlers.rs that follows the toolbox's result. The
  -- ancestors are those that the result's BEEF carries.
  unfoldable pub handle_broadcast :
      CreateActionResult → Bool → Bool → List Text → PresenceReport → World → Handled World
  unfolding handle_txid
  handle_broadcast result no_send accept_delayed ancestors report w =
      handle_txid (disposition result no_send accept_delayed) result.txid ancestors report w
