-- ===== src/BroadcastVerify/Rounds.antt =====
-- `verify_report` of src/broadcast_verify.rs: the probe rounds and the verdict. `look n` is what
-- each source answers in round `n`, `rotation n` the shared counter in that round, and
-- `past_deadline n` whether the clock has passed the deadline after it.
pub mod Scan
pub mod Verdict
use bsv_wallet_cli.Prelude.{
  ℕ, zero, suc, ◌+◌, Option, none, some, Bool, true, false, ◌&&◌, ◌||◌, not, List, [], ◌∷◌, ◌==◌,
  if◌then◌else◌, is_some, is_empty,
}
use bsv_wallet_cli.Prelude.Text.{Text}
use bsv_wallet_cli.BroadcastVerify.Probe.{
  NetworkEvidence, seen, mined, Presence, held, fatal, absent, unknown, present, AbsenceAuthority,
  StatusSource, SourceKind, arcade, is_chain_index, is_broadcaster,
}
use bsv_wallet_cli.BroadcastVerify.Indexes.{
  AbsenceVotes, record_vote, is_definitive, ChainIndexAnswer, index_present, index_absent,
  index_unknown, ChainIndexReply, ask_chain_indexes,
}

pub data Verification : Type 0 where
  confirmed verdict_rejected inconclusive : Verification

-- The broadcast memory's provider that evidence is credited to.
pub data Provider : Type 0 where
  provider_chain provider_network provider_arcade : Provider

pub record PresenceReport : Type 0 where
  pub verification : Verification
  pub evidence : Option NetworkEvidence
  pub evidence_provider : Provider
  pub chain_index : ChainIndexAnswer
  pub chain_index_by : Option Text
  pub broadcaster_fatal : Bool
  pub network_absent : Bool

pub record RoundResult : Type 0 where
  pub votes : AbsenceVotes
  pub held_somewhere : Bool
  pub broadcaster_answered : Bool
  pub is_fatal : Bool
  pub broadcaster_evidence : Option (NetworkEvidence × Provider)
  pub third_party_evidence : Option NetworkEvidence
  pub index_word : Option Text

abbrev pub empty_round : RoundResult
empty_round = record {
  votes = record { broadcaster_vote = false; chain_index_vote = false };
  held_somewhere = false;
  broadcaster_answered = false;
  is_fatal = false;
  broadcaster_evidence = none;
  third_party_evidence = none;
  index_word = none;
}

abbrev pub from_verification : Verification → PresenceReport
from_verification v = record {
  verification = v;
  evidence = none;
  evidence_provider = provider_network;
  chain_index = index_unknown;
  chain_index_by = none;
  broadcaster_fatal = false;
  network_absent = false;
}

abbrev provider_of : SourceKind → Provider
provider_of arcade = provider_arcade
provider_of _ = provider_network

abbrev answers : StatusSource → RoundResult → RoundResult
answers src r = if is_broadcaster src.absence then record r { broadcaster_answered = true } else r

-- What the answer of a source that is no chain index adds to the round.
unfoldable pub note_presence : StatusSource → Presence → RoundResult → RoundResult
note_presence src (present e) r =
    if is_broadcaster src.absence
    then record r {
      broadcaster_answered = true;
      broadcaster_evidence = some (e, provider_of src.kind);
    }
    else record r { third_party_evidence = some e }
note_presence src held r = answers src (record r { held_somewhere = true })
note_presence src fatal r = record r {
  is_fatal = true;
  broadcaster_answered = true;
  votes = record_vote src.absence r.votes;
}
note_presence src absent r = answers src (record r { votes = record_vote src.absence r.votes })
note_presence src unknown r = r

-- A round ends the verification by chain evidence, or has a result.
pub data Scanned : Type 0 where
  on_chain : NetworkEvidence → Option Text → Scanned
  scanned : RoundResult → Scanned

-- The reply of the chain indexes, and the rest of the round.
with_reply : ChainIndexAnswer → ChainIndexReply → RoundResult → (RoundResult → Scanned) → Scanned
with_reply (index_present e) reply r rest = on_chain e reply.by
with_reply index_absent reply r rest = rest (record r {
  votes = record_vote AbsenceAuthority.chain_index r.votes;
  index_word = reply.known_by;
})
with_reply index_unknown reply r rest = rest (record r { index_word = reply.known_by })

-- One round over the sources; the chain indexes are asked where the first of them stands.
unfoldable pub scan :
    (StatusSource → Presence) → ChainIndexReply → List StatusSource → Bool → RoundResult → Scanned
unfolding note_presence with_reply
scan look reply [] asked r = scanned r
scan look reply (src ∷ rest) asked r =
    let skipped = scan look reply rest asked r in
    let indexes = with_reply reply.answer reply r (scan look reply rest true) in
    let probed = scan look reply rest asked (note_presence src (look src) r) in
    if is_chain_index src.absence then (if asked then skipped else indexes) else probed

unfoldable pub is_settled : RoundResult → Bool
is_settled r =
    r.held_somewhere
    || is_some r.broadcaster_evidence
    || is_some r.third_party_evidence
    || is_some r.index_word

-- How the rounds end.
pub data Ended : Type 0 where
  by_chain : NetworkEvidence → Option Text → Ended
  by_round : Option RoundResult → Ended

unfoldable pub next_round : ℕ → Bool → Bool → RoundResult → Ended → Ended
next_round left settled late r rest =
    if settled
    then by_round (some r)
    else if left == 0
    then by_round (some r)
    else if late
    then by_round (some r)
    else rest

unfoldable pub after_scan : ℕ → Bool → Scanned → Ended → Ended
unfolding next_round
after_scan left late (on_chain e by) rest = by_chain e by
after_scan left late (scanned r) rest = next_round left (is_settled r) late r rest

abbrev seen_by : RoundResult → Option (NetworkEvidence × Provider)
seen_by r = elim r.third_party_evidence [
  | some e ↦ some (e, provider_network)
  | none ↦ elim r.broadcaster_evidence [
    | some p ↦ some p
    | none ↦ if is_some r.index_word then some (seen, provider_network) else none
  ]
]

abbrev evidence_of : Option (NetworkEvidence × Provider) → Option NetworkEvidence
evidence_of none = none
evidence_of (some (e, p)) = some e

abbrev provider_or : Option (NetworkEvidence × Provider) → Provider
provider_or none = provider_network
provider_or (some (e, p)) = p

unfoldable pub report_of_round : RoundResult → PresenceReport
report_of_round r = record {
  verification =
      if is_settled r
      then confirmed
      else if is_definitive r.votes
      then verdict_rejected
      else inconclusive;
  evidence = evidence_of (seen_by r);
  evidence_provider = provider_or (seen_by r);
  chain_index = if r.votes.chain_index_vote then index_absent else index_unknown;
  chain_index_by = r.index_word;
  broadcaster_fatal = r.is_fatal;
  network_absent =
      r.votes.chain_index_vote && r.broadcaster_answered && not (is_some r.third_party_evidence);
}

unfoldable pub report_of : Ended → PresenceReport
unfolding report_of_round
report_of (by_chain e by) = record {
  verification = confirmed;
  evidence = some e;
  evidence_provider = provider_chain;
  chain_index = index_present e;
  chain_index_by = by;
  broadcaster_fatal = false;
  network_absent = false;
}
report_of (by_round none) = from_verification inconclusive
report_of (by_round (some r)) = report_of_round r

module _ (look : ℕ → StatusSource → Presence) (rotation : ℕ → ℕ) (past_deadline : ℕ → Bool)
    (sources : List StatusSource) where
  unfoldable pub round : ℕ → Scanned
  unfolding scan
  round n =
      scan (look n) (ask_chain_indexes (look n) (rotation n) sources) sources false empty_round

  -- The rounds from `n` on, with `left` still to run.
  rounds : ℕ → ℕ → Option RoundResult → Ended
  unfolding after_scan
  rounds zero n last = by_round last
  rounds (suc left) n last =
      let rest = rounds left (suc n) last in after_scan left (past_deadline n) (round n) rest

  unfoldable pub verify_report : Bool → ℕ → PresenceReport
  unfolding report_of rounds
  verify_report enabled attempts =
      if not enabled || is_empty sources
      then from_verification inconclusive
      else report_of (rounds attempts 0 none)
