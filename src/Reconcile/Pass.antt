-- ===== src/Reconcile/Pass.antt =====
-- `run_pass` of src/broadcast_reconcile.rs: the probes of the candidates, what each report means,
-- and the retires. `verify` is the verifier's report; `drain` is what the Arcade stream pushed.
use bsv_wallet_cli.Prelude.{
  ℕ, suc, Option, none, some, Bool, not, List, [], ◌∷◌, ◌++◌, if◌then◌else◌, any, select, take,
  length,
}
use bsv_wallet_cli.Prelude.Text.{Text, text_eq}
use bsv_wallet_cli.Guard.Retire.{is_one_of}
use bsv_wallet_cli.BroadcastVerify.Probe.{NetworkEvidence, seen, mined}
use bsv_wallet_cli.BroadcastVerify.Indexes.{
  ChainIndexAnswer, index_present, index_absent, index_unknown,
}
use bsv_wallet_cli.BroadcastVerify.Rounds.{
  PresenceReport, Provider, provider_chain, provider_network, confirmed, verdict_rejected,
  inconclusive,
}
use bsv_wallet_cli.Reconcile.Tables.{
  SeenRecord, Candidate, status_mined, status_rejected, status_other, has_status, needs_probe,
  select_candidates, sweep_roots, unproven_parents,
}
use bsv_wallet_cli.Reconcile.Retire.{Toolbox, Sweep, no_sweep, sweep_all}

pub data Probe : Type 0 where
  chain_probe : NetworkEvidence → Probe
  fatal_probe absent_probe held_probe inconclusive_probe : Probe

unfoldable pub off_chain : PresenceReport → Probe
off_chain r =
    if r.broadcaster_fatal
    then fatal_probe
    else if r.network_absent
    then absent_probe
    else elim (r.verification) [
      | confirmed ↦ held_probe
      | verdict_rejected ↦ inconclusive_probe
      | inconclusive ↦ inconclusive_probe
    ]

unfoldable pub by_index : ChainIndexAnswer → PresenceReport → Probe
by_index (index_present e) r = chain_probe e
by_index index_absent r = off_chain r
by_index index_unknown r = off_chain r

unfoldable pub classify : PresenceReport → Probe
unfolding by_index off_chain
classify r = by_index r.chain_index r

pub record ReconcileOptions : Type 0 where
  pub execute : Bool
  pub absence_minutes : ℕ
  pub max_probes : ℕ
  pub max_locked_checks : ℕ
  pub max_age_hours : Option ℕ

pub record BroadcastsReport : Type 0 where
  pub candidates : ℕ
  pub fresh : ℕ
  pub probed : ℕ
  pub seen_txids : List Text
  pub mined_txids : List Text
  pub held_txids : List Text
  pub inconclusive_txids : List Text
  pub absent : List (Text × ℕ)
  pub fatal : List Text

abbrev pub no_report : BroadcastsReport
no_report = record {
  candidates = 0;
  fresh = 0;
  probed = 0;
  seen_txids = [];
  mined_txids = [];
  held_txids = [];
  inconclusive_txids = [];
  absent = [];
  fatal = [];
}

-- The loop over the candidates: the report, those to probe with their ages, and the roots.
abbrev pub Listed : Type 0
Listed = BroadcastsReport × List (Text × ℕ) × List Text

unfoldable pub records_for : Text → List SeenRecord → List SeenRecord
records_for txid records = select (λ (r : SeenRecord). text_eq r.txid txid) records

unfoldable pub list_candidate : ℕ → ℕ → List SeenRecord → Candidate → Listed → Listed
unfolding records_for
list_candidate stale absence records c (r, probes, roots) =
    let mine = records_for c.txid records in
    if any (λ (m : SeenRecord). has_status status_rejected m.ladder_status) mine
    then (r, probes, roots ++ c.txid ∷ [])
    else if not (needs_probe stale c.age_minutes absence mine)
    then (record r { fresh = suc r.fresh }, probes, roots)
    else (r, probes ++ (c.txid, c.age_minutes) ∷ [], roots)

unfoldable pub list_candidates : ℕ → ℕ → List SeenRecord → List Candidate → Listed → Listed
list_candidates stale absence records [] l = l
list_candidates stale absence records (c ∷ cs) l =
    list_candidates stale absence records cs (list_candidate stale absence records c l)

pub enter_chain : NetworkEvidence → Text → BroadcastsReport → BroadcastsReport
enter_chain seen txid r = record r { seen_txids = r.seen_txids ++ txid ∷ [] }
enter_chain mined txid r = record r { mined_txids = r.mined_txids ++ txid ∷ [] }

unfoldable pub add_roots : List Text → List Text → List Text
add_roots roots [] = roots
add_roots roots (t ∷ ts) = add_roots (if is_one_of roots t then roots else roots ++ t ∷ []) ts

module _ {World Locked : Type 0} (toolbox : Toolbox World Locked)
    (verify : ℕ → Text → PresenceReport) (opts : ReconcileOptions) where
  unfoldable pub if_mined : Text → Provider → NetworkEvidence → World → World
  if_mined txid p seen w = w
  if_mined txid p mined w = toolbox.record_broadcast_status txid p status_mined w

  unfoldable pub credit_provider : Text → NetworkEvidence → Provider → World → World
  credit_provider txid e p w = if_mined txid p e (toolbox.mark_seen_by txid p w)

  unfoldable pub credit_parents : List Text → World → World
  credit_parents [] w = w
  credit_parents (p ∷ ps) w = toolbox.record_seen_many provider_chain (p ∷ ps) w

  unfoldable pub credit_chain : Text → NetworkEvidence → World → World
  credit_chain txid e w =
      let marked = if_mined txid provider_chain e (toolbox.mark_seen_by txid provider_chain w) in
      credit_parents (unproven_parents (toolbox.tables marked) txid) marked

  unfoldable pub note_absence : Text → World → World
  note_absence txid w = toolbox.record_broadcast_status txid provider_network status_other w

  unfoldable pub credit_evidence :
      Text → PresenceReport → Option NetworkEvidence → ChainIndexAnswer → World → World
  credit_evidence txid p none index w = w
  credit_evidence txid p (some e) (index_present i) w = w
  credit_evidence txid p (some e) index_absent w = credit_provider txid e p.evidence_provider w
  credit_evidence txid p (some e) index_unknown w = credit_provider txid e p.evidence_provider w

  -- The store, the report and the roots.
  abbrev pub Probed : Type 0
  Probed = World × BroadcastsReport × List Text

  unfoldable pub act_on : Probe → Text → ℕ → Probed → Probed
  act_on (chain_probe e) txid age (w, r, roots) =
      (credit_chain txid e w, enter_chain e txid r, roots)
  act_on fatal_probe txid age (w, r, roots) =
      (w, record r { fatal = r.fatal ++ txid ∷ [] }, roots ++ txid ∷ [])
  act_on absent_probe txid age (w, r, roots) =
      (note_absence txid w, record r { absent = r.absent ++ (txid, age) ∷ [] }, roots)
  act_on held_probe txid age (w, r, roots) =
      (w, record r { held_txids = r.held_txids ++ txid ∷ [] }, roots)
  act_on inconclusive_probe txid age (w, r, roots) =
      (w, record r { inconclusive_txids = r.inconclusive_txids ++ txid ∷ [] }, roots)

  unfoldable pub probe_one : ℕ → Text × ℕ → Probed → Probed
  probe_one n (txid, age) (w, r, roots) =
      let p = verify n txid in
      act_on (classify p) txid age (
        credit_evidence txid p p.evidence p.chain_index w,
        record r { probed = suc r.probed },
        roots,
      )

  unfoldable pub probe_all : ℕ → List (Text × ℕ) → Probed → Probed
  probe_all n [] s = s
  probe_all n (t ∷ ts) s = probe_all (suc n) ts (probe_one n t s)

  -- The first half of a pass, on the store that the stream left.
  unfoldable pub probe_pass : ℕ → World → Probed
  probe_pass stale w =
      let candidates = select_candidates (toolbox.tables w) opts.max_age_hours in
      let listed =
        list_candidates stale opts.absence_minutes (toolbox.tables w).memory candidates
          (record no_report { candidates = length candidates }, [], []) in
      probe_all 0 (take opts.max_probes listed.1) (w, listed.0, listed.2)

  unfoldable pub after_sweep :
      BroadcastsReport → World × Sweep → World × BroadcastsReport × Sweep × Locked
  after_sweep r s =
      let locked = toolbox.recheck_locked_inputs opts.max_locked_checks opts.execute s.0 in
      (locked.0, r, s.1, locked.1)

  unfoldable pub run_pass : ℕ → (World → World) → World → World × BroadcastsReport × Sweep × Locked
  unfolding add_roots
  run_pass stale drain w =
      let probed = probe_pass stale (drain w) in
      after_sweep probed.1 (
        sweep_all toolbox opts.absence_minutes opts.execute
          (add_roots probed.2 (sweep_roots (toolbox.tables probed.0))) (probed.0, no_sweep))
