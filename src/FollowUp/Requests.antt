-- ===== src/FollowUp/Requests.antt =====
-- What `createAction` makes of a follow-up: when the request fails.
use bsv_wallet_cli.Prelude.{
  ◌≡◌, ◌≢◌, refl, sym, ap, subst, ◌||◌, inl, inr, Bool-cases, Option, none, some, Bool, true, false,
  List, ◌↔◌, arith,
}
use bsv_wallet_cli.Prelude.Text.{Text, codes, text_eq_iff}
use bsv_wallet_cli.BroadcastVerify.Rounds.{PresenceReport, verdict_rejected}
use bsv_wallet_cli.FollowUp.{
  BroadcastDisposition, ambiguous_broadcast, CreateActionResult, SendStatus, send_unproven,
  send_sending, send_failed, entry_in, of_entry, of_txid, disposition, Handled, handle_txid,
  handle_broadcast, tx_status, is_failed, Toolbox, follow_up,
}
use bsv_wallet_cli.FollowUp.Acts.{Acts, follow_up-Acts, follow_up-answer}

is_failed_iff : (s : Option Text) → (is_failed s ≡ true) ↔ (s ≡ some (codes "failed"))
is_failed_iff none = (λ h. cc, λ h. cc)
is_failed_iff (some s) = (
  λ h. ap some ((text_eq_iff s (codes "failed")).0 h),
  λ h. (text_eq_iff s (codes "failed")).1 (cc),
)

-- The toolbox posted the transaction at once and did not say that a broadcaster accepted it.
pub record IsAmbiguous (result : CreateActionResult) (txid : Text) (no_send accept_delayed : Bool)
    : Type 0 where
  pub posted : (no_send ≡ false) × (accept_delayed ≡ false)
  pub whole : result.has_signable_transaction ≡ false
  pub unaccepted : entry_in txid result.send_with_results ≢ some send_unproven

of_entry_iff :
    (e : Option SendStatus) → (of_entry e ≡ ambiguous_broadcast) ↔ (e ≢ some send_unproven)
unfolding of_entry
of_entry_iff none = (λ h e. cc, λ h. refl)
of_entry_iff (some send_unproven) = (λ h. absurd (cc), λ h. absurd (h refl))
of_entry_iff (some send_sending) = (λ h e. cc, λ h. refl)
of_entry_iff (some send_failed) = (λ h e. cc, λ h. refl)

disposition_iff :
    (result : CreateActionResult) (txid : Text) (no_send accept_delayed : Bool)
    → result.txid ≡ some txid
    → (disposition result no_send accept_delayed ≡ ambiguous_broadcast)
      ↔ IsAmbiguous result txid no_send accept_delayed
unfolding disposition of_txid
disposition_iff result txid no_send accept_delayed t =
    elim (Bool-cases (no_send || accept_delayed || result.has_signable_transaction)) [
      | inl y ↦ simp y (
        λ h. absurd (cc),
        λ a. absurd (let p = a.posted in let q = a.whole in ground (arith, p.0, p.1, q)),
      )
      | inr n ↦ simp n (
          rw t (
            λ h. record {
              posted = (ground arith, ground arith);
              whole = ground arith;
              unaccepted = (of_entry_iff (entry_in txid result.send_with_results)).0 h;
            },
            λ a. (of_entry_iff (entry_in txid result.send_with_results)).1 a.unaccepted,
          ))
    ]

module _ {World : Type 0} (toolbox : Toolbox World) (result : CreateActionResult) (txid : Text)
    (sent : result.txid ≡ some txid) where
  handle_txid-fails :
      (d : BroadcastDisposition) (ancestors : List Text) (report : PresenceReport) (w : World)
      → ((handle_txid toolbox d (some txid) ancestors report w).fails ≡ true) ↔ (
          (d ≡ ambiguous_broadcast)
          × (report.verification ≡ verdict_rejected)
          × (tx_status toolbox txid (handle_txid toolbox d (some txid) ancestors report w).world
              ≡ some (codes "failed")))
  unfolding handle_txid
  handle_txid-fails d ancestors report w =
      let a = follow_up-answer toolbox txid ancestors report d w in
      let s =
        is_failed_iff
          (tx_status toolbox txid (follow_up toolbox d txid ancestors report w).world) in
      (
        λ h. let p = a.0 (ground arith) in (p.0, p.1, s.0 (ground arith)),
        λ (d', v, f). rw (a.1 (d', v), s.1 f) refl,
      )

  handle_txid-Acts :
      (d : BroadcastDisposition) (ancestors : List Text) (report : PresenceReport) (w later : World)
      → Acts toolbox txid ancestors report w
          (handle_txid toolbox d (some txid) ancestors report w).world
        × Acts toolbox txid ancestors report later
            ((handle_txid toolbox d (some txid) ancestors report w).background later)
  unfolding handle_txid
  handle_txid-Acts d ancestors report w later =
      follow_up-Acts toolbox txid ancestors report d w later

  -- What is said of a handled request, of which `later` is a store that its task finds.
  abbrev pub IsHandled :
      Bool → Bool → List Text → PresenceReport → World → World → Handled World → Type 0
  IsHandled no_send accept_delayed ancestors report w later handled =
      Acts toolbox txid ancestors report w handled.world
      × Acts toolbox txid ancestors report later (handled.background later)
      × ((handled.fails ≡ true) ↔ (
          IsAmbiguous result txid no_send accept_delayed
          × (report.verification ≡ verdict_rejected)
          × (tx_status toolbox txid handled.world ≡ some (codes "failed"))))

  -- After a result with a transaction id, `createAction` records the report's evidence, as mined only
  -- if the report says so, and retires the transaction only where the verifier rejected it and the
  -- store's records say that no broadcaster took it, before the answer and in the task left running
  -- alike; and the request fails exactly where the transaction was posted at once, no broadcaster was
  -- said to have accepted it, the verifier rejected it, and its status afterwards is `failed`.
  pub handle_broadcast_lem :
      (no_send accept_delayed : Bool) (ancestors : List Text) (report : PresenceReport)
      (w later : World)
      → IsHandled no_send accept_delayed ancestors report w later
          (handle_broadcast toolbox result no_send accept_delayed ancestors report w)
  unfolding handle_broadcast
  handle_broadcast_lem no_send accept_delayed ancestors report w later =
      let d = disposition result no_send accept_delayed in
      let (now, then_later) = handle_txid-Acts d ancestors report w later in
      let fails = handle_txid-fails d ancestors report w in
      let ambiguous = disposition_iff result txid no_send accept_delayed sent in
      subst
        (λ o.
          IsHandled no_send accept_delayed ancestors report w later
            (handle_txid toolbox d o ancestors report w))
        (sym sent)
        (
          now,
          then_later,
          (
            λ h. let (a, v, f) = fails.0 h in (ambiguous.0 a, v, f),
            λ (a, v, f). fails.1 (ambiguous.1 a, v, f),
          ),
        )
