-- ===== src/Cleanup/Decide.antt =====
-- The rules of src/commands/cleanup_abandoned.rs as values: what the chain says of an input, the
-- verdict on a transaction, and what abandoning it does to an input.
use bsv_wallet_cli.Prelude.{
  ℕ, Option, none, some, Bool, true, false, ◌&&◌, not, List, leb, if◌then◌else◌, any,
}
use bsv_wallet_cli.Prelude.Text.{Text, text_eq, to_ascii_lowercase}
use bsv_wallet_cli.BroadcastVerify.Indexes.{ChainIndexAnswer, index_present}
use bsv_wallet_cli.BroadcastVerify.Rounds.{
  Verification, confirmed, verdict_rejected, inconclusive, PresenceReport,
}

pub data InputSpend : Type 0 where
  unspent : InputSpend
  spent_by_tx : Text → Bool → InputSpend
  spend_unknown : InputSpend

-- The toolbox's answer on an outpoint: a verdict, and a spender that its own bytes bear out.
pub data UtxoVerdict : Type 0 where
  unspent_hint utxo_spent spent_hint utxo_unknown : UtxoVerdict

pub record BoundSpender : Type 0 where
  pub txid : Text
  pub confirmed : Bool

-- `probe_input_spend`: the answer, and whether the wallet holds the output's script.
unfoldable pub probe_input_spend : UtxoVerdict → Option BoundSpender → Bool → InputSpend
probe_input_spend v (some s) has_script = spent_by_tx s.txid s.confirmed
probe_input_spend unspent_hint none has_script = if has_script then unspent else spend_unknown
probe_input_spend utxo_spent none has_script = spend_unknown
probe_input_spend spent_hint none has_script = spend_unknown
probe_input_spend utxo_unknown none has_script = spend_unknown

pub data Verdict : Type 0 where
  kept verdict_inconclusive absent_on_clock dead_absent absent_past_threshold dead_conflict :
      Verdict

unfoldable pub is_dead : Verdict → Bool
is_dead dead_absent = true
is_dead dead_conflict = true
is_dead _ = false

unfoldable pub is_index_present : ChainIndexAnswer → Bool
is_index_present (index_present e) = true
is_index_present _ = false

on_clock : Bool → Verdict
on_clock past = if past then absent_past_threshold else absent_on_clock

by_verification : Verification → Bool → Bool → Verdict
unfolding on_clock
by_verification verdict_rejected absent past = dead_absent
by_verification confirmed absent past = if absent then on_clock past else kept
by_verification inconclusive absent past = if absent then on_clock past else verdict_inconclusive

unfoldable pub presence_verdict : PresenceReport → ℕ → ℕ → Verdict
unfolding by_verification on_clock
presence_verdict presence age_minutes absence_minutes =
    if is_index_present presence.chain_index
    then kept
    else by_verification presence.verification presence.network_absent
        (leb absence_minutes age_minutes)

unfoldable pub eq_ignore_ascii_case : Text → Text → Bool
eq_ignore_ascii_case s t = text_eq (to_ascii_lowercase s) (to_ascii_lowercase t)

-- A confirmed spend by another transaction.
unfoldable pub is_conflict : Text → InputSpend → Bool
is_conflict our_txid (spent_by_tx txid is_confirmed) =
    is_confirmed && not (eq_ignore_ascii_case txid our_txid)
is_conflict our_txid _ = false

unfoldable pub has_conflict : Text → List InputSpend → Bool
has_conflict our_txid inputs = any (is_conflict our_txid) inputs

unfoldable pub verdict_for : Text → List InputSpend → PresenceReport → ℕ → ℕ → Verdict
verdict_for our_txid inputs presence age_minutes absence_minutes =
    if has_conflict our_txid inputs
    then dead_conflict
    else presence_verdict presence age_minutes absence_minutes

pub data Release : Type 0 where
  restore relinquish keep_locked : Release

unfoldable pub release_of : Text → InputSpend → Release
release_of our_txid unspent = restore
release_of our_txid (spent_by_tx txid is_confirmed) =
    if is_confirmed && not (eq_ignore_ascii_case txid our_txid) then relinquish else keep_locked
release_of our_txid spend_unknown = keep_locked
