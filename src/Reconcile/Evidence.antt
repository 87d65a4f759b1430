-- ===== src/Reconcile/Evidence.antt =====
-- What a presence report gives a pass leave to record.
use bsv_wallet_cli.Prelude.{◌≡◌, ◌≢◌, refl, arith, some, true, false}
use bsv_wallet_cli.BroadcastVerify.Probe.{NetworkEvidence}
use bsv_wallet_cli.BroadcastVerify.Indexes.{
  ChainIndexAnswer, index_present, index_absent, index_unknown,
}
use bsv_wallet_cli.BroadcastVerify.Rounds.{PresenceReport, Provider, provider_chain}
use bsv_wallet_cli.Reconcile.Pass.{chain_probe, absent_probe, classify, off_chain, by_index}

-- Why a pass may credit a provider with a transaction: by its report the chain index has it, or the
-- index has none of it and that provider gave the evidence.
pub data Vouched (r : PresenceReport) (p : Provider) (e : NetworkEvidence) : Type 0 where
  by_chain_index : r.chain_index ≡ index_present e → p ≡ provider_chain → Vouched r p e
  by_evidence :
      ((i : NetworkEvidence) → r.chain_index ≢ index_present i)
      → r.evidence ≡ some e
      → p ≡ r.evidence_provider
      → Vouched r p e

-- By its report a transaction is on no index, no broadcaster called it fatal, and the network has
-- none of it.
pub record IsAbsent (r : PresenceReport) : Type 0 where
  pub off_index : (i : NetworkEvidence) → r.chain_index ≢ index_present i
  pub not_fatal : r.broadcaster_fatal ≡ false
  pub absent : r.network_absent ≡ true

off_chain-absent :
    (r : PresenceReport)
    → off_chain r ≡ absent_probe
    → (r.broadcaster_fatal ≡ false) × (r.network_absent ≡ true)
unfolding off_chain
off_chain-absent r h = ground arith

by_index-chain :
    (i : ChainIndexAnswer) (r : PresenceReport) (e : NetworkEvidence)
    → by_index i r ≡ chain_probe e
    → i ≡ index_present e
unfolding by_index off_chain
by_index-chain (index_present x) r e h = cc
by_index-chain index_absent r e h = ground arith
by_index-chain index_unknown r e h = ground arith

pub classify-chain :
    (r : PresenceReport) (e : NetworkEvidence)
    → classify r ≡ chain_probe e
    → r.chain_index ≡ index_present e
unfolding classify
classify-chain r e h = by_index-chain r.chain_index r e h

by_index-IsAbsent :
    (i : ChainIndexAnswer) (r : PresenceReport)
    → r.chain_index ≡ i
    → by_index i r ≡ absent_probe
    → IsAbsent r
unfolding by_index
by_index-IsAbsent (index_present x) r e h = absurd (cc)
by_index-IsAbsent index_absent r e h =
    let (f, a) = off_chain-absent r h in record { off_index = λ j p. cc; not_fatal = f; absent = a }
by_index-IsAbsent index_unknown r e h =
    let (f, a) = off_chain-absent r h in record { off_index = λ j p. cc; not_fatal = f; absent = a }

pub classify-IsAbsent : (r : PresenceReport) → classify r ≡ absent_probe → IsAbsent r
unfolding classify
classify-IsAbsent r h = by_index-IsAbsent r.chain_index r refl h
