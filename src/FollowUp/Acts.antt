-- ===== src/FollowUp/Acts.antt =====
-- What a follow-up may do to the store, and when its answer is a rejection.
use bsv_wallet_cli.Prelude.{
  ◌≡◌, refl, subst, Option, none, some, Bool, true, false, List, [], ◌∷◌, ◌↔◌, arith,
}
use bsv_wallet_cli.Prelude.Text.{Text}
use bsv_wallet_cli.Guard.Retire.{Records, broadcaster_took}
use bsv_wallet_cli.BroadcastVerify.Probe.{NetworkEvidence, seen, mined}
use bsv_wallet_cli.BroadcastVerify.Rounds.{
  PresenceReport, Verification, confirmed, verdict_rejected, inconclusive,
}
use bsv_wallet_cli.FollowUp.{
  BroadcastDisposition, not_broadcast, accepted_broadcast, ambiguous_broadcast, is_rejected,
  Toolbox, if_mined, credit_ancestors, record_evidence, took, retire_rejected_broadcast,
  retire_untaken, on_verdict, apply_presence_report, answer_of, follow_up,
}

module _ {World : Type 0} (toolbox : Toolbox World) (txid : Text) (ancestors : List Text)
    (report : PresenceReport) where
  -- The report's evidence is recorded for the transaction, as mined only if it says so, and for its
  -- ancestors, all by the report's provider; and the transaction is retired where the verifier rejected it and the
  -- store's records, which could be read at that moment, say that no broadcaster took it.
  pub data Acts : World → World → Type 0 where
    done : {w : World} → Acts w w
    then_ : {u v w : World} → Acts u v → Acts v w → Acts u w
    marked :
        (e : NetworkEvidence) (w : World)
        → report.evidence ≡ some e
        → Acts w (toolbox.mark_seen_by txid report.evidence_provider w)
    recorded :
        (w : World)
        → report.evidence ≡ some mined
        → Acts w (toolbox.record_mined txid report.evidence_provider w)
    credited :
        (e : NetworkEvidence) (w : World)
        → report.evidence ≡ some e
        → Acts w (toolbox.record_seen_many report.evidence_provider ancestors w)
    retired :
        (records : Records) (w : World)
        → report.verification ≡ verdict_rejected
        → toolbox.records w ≡ some records
        → broadcaster_took records txid ≡ false
        → Acts w (toolbox.retire_undeliverable_txid txid w).0

  if_mined-Acts :
      (e : NetworkEvidence) (w : World)
      → report.evidence ≡ some e
      → Acts w (if_mined toolbox txid report.evidence_provider e w)
  unfolding if_mined
  if_mined-Acts seen w h = done
  if_mined-Acts mined w h = recorded w h

  credit_ancestors-Acts :
      (ts : List Text) (e : NetworkEvidence) (w : World)
      → report.evidence ≡ some e
      → ancestors ≡ ts
      → Acts w (credit_ancestors toolbox report.evidence_provider ts w)
  unfolding credit_ancestors
  credit_ancestors-Acts [] e w h same = done
  credit_ancestors-Acts (t ∷ ts) e w h same =
      subst (λ us. Acts w (toolbox.record_seen_many report.evidence_provider us w)) same
        (credited e w h)

  record_evidence-Acts :
      (e : Option NetworkEvidence) (w : World)
      → report.evidence ≡ e
      → Acts w (record_evidence toolbox txid ancestors report.evidence_provider e w)
  unfolding record_evidence
  record_evidence-Acts none w h = done
  record_evidence-Acts (some e) w h =
      then_ (marked e w h)
        (then_ (if_mined-Acts e _ h) (credit_ancestors-Acts ancestors e _ h refl))

  retire_untaken-Acts :
      (r : Option Records) (b : Option Bool) (w : World)
      → report.verification ≡ verdict_rejected
      → toolbox.records w ≡ r
      → took toolbox txid r ≡ b
      → Acts w (retire_untaken toolbox txid b w)
  unfolding retire_untaken retire_rejected_broadcast took
  retire_untaken-Acts none (some b) w v e t = cc
  retire_untaken-Acts r none w v e t = done
  retire_untaken-Acts r (some true) w v e t = done
  retire_untaken-Acts (some records) (some false) w v e t = retired records w v e cc

  on_verdict-Acts :
      (v : Verification) (w : World)
      → report.verification ≡ v
      → Acts w (on_verdict toolbox txid v w)
  unfolding on_verdict
  on_verdict-Acts verdict_rejected w e = retire_untaken-Acts _ _ w e refl refl
  on_verdict-Acts confirmed w e = done
  on_verdict-Acts inconclusive w e = done

  pub apply_presence_report-Acts :
      (w : World) → Acts w (apply_presence_report toolbox txid ancestors report w)
  unfolding apply_presence_report
  apply_presence_report-Acts w =
      then_ (record_evidence-Acts report.evidence w refl)
        (on_verdict-Acts report.verification _ refl)

  pub follow_up-Acts :
      (d : BroadcastDisposition) (w later : World)
      → Acts w (follow_up toolbox d txid ancestors report w).world
        × Acts later ((follow_up toolbox d txid ancestors report w).background later)
  unfolding follow_up
  follow_up-Acts not_broadcast w later = (done, done)
  follow_up-Acts accepted_broadcast w later = (done, apply_presence_report-Acts later)
  follow_up-Acts ambiguous_broadcast w later = (apply_presence_report-Acts w, done)

  rejected_iff :
      (v : Verification) → (is_rejected (answer_of toolbox v) ≡ true) ↔ (v ≡ verdict_rejected)
  unfolding answer_of is_rejected
  rejected_iff v = ground arith

  pub follow_up-answer :
      (d : BroadcastDisposition) (w : World)
      → (is_rejected (follow_up toolbox d txid ancestors report w).answer ≡ true)
        ↔ ((d ≡ ambiguous_broadcast) × (report.verification ≡ verdict_rejected))
  unfolding follow_up is_rejected
  follow_up-answer not_broadcast w = ((λ h. cc), (λ h. let e = h.0 in cc))
  follow_up-answer accepted_broadcast w = ((λ h. cc), (λ h. let e = h.0 in cc))
  follow_up-answer ambiguous_broadcast w = (
    (λ h. (refl, (rejected_iff report.verification).0 h)),
    (λ h. (rejected_iff report.verification).1 h.1),
  )
