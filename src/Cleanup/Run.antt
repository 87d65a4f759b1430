-- ===== src/Cleanup/Run.antt =====
-- `reconcile_with` of src/commands/cleanup_abandoned.rs: the decisions, and the writes if asked for.
use bsv_wallet_cli.Prelude.{
  ℕ, ◌+◌, some, Bool, true, ◌&&◌, not, List, [], ◌∷◌, map, if◌then◌else◌, is_empty,
}
use bsv_wallet_cli.Prelude.Text.{Text}
use bsv_wallet_cli.BroadcastVerify.Rounds.{PresenceReport}
use bsv_wallet_cli.Cleanup.Store.{
  Wallet, OutputRow, TrackedInput, tally, phantom_rows, basket_name, default_basket_sats,
}
use bsv_wallet_cli.Cleanup.Decide.{
  InputSpend, Release, restore, relinquish, keep_locked, release_of,
}
use bsv_wallet_cli.Cleanup.Pass.{
  ReconcileReport, DeadCandidate, decide_transactions, decide_requests,
}
use bsv_wallet_cli.Cleanup.Write.{
  Effect, Phantoms, Marked, release_all, remove_phantom_outputs, mark_failed, retire_stale_reqs,
}

would_turn : Release → TrackedInput → ReconcileReport → ReconcileReport
would_turn restore input r =
    if not input.spendable
    then record r { turned_on = tally r.turned_on input.basket input.satoshis }
    else r
would_turn relinquish input r =
    if input.spendable
    then record r { turned_off = tally r.turned_off input.basket input.satoshis }
    else r
would_turn keep_locked input r = r

would_turn_inputs : Text → List (TrackedInput × InputSpend) → ReconcileReport → ReconcileReport
would_turn_inputs our_txid [] r = r
would_turn_inputs our_txid ((input, answer) ∷ answers) r =
    would_turn_inputs our_txid answers (would_turn (release_of our_txid answer) input r)

would_turn_rows : Wallet → List OutputRow → ReconcileReport → ReconcileReport
would_turn_rows w [] r = r
would_turn_rows w (o ∷ os) r =
    would_turn_rows w os (record r { turned_off = tally r.turned_off (basket_name w o) o.satoshis })

-- On a dry run: the rows that the pass would move, as they stand.
unfoldable pub dry_run : Wallet → List DeadCandidate → ReconcileReport → ReconcileReport
unfolding would_turn_rows would_turn_inputs would_turn
dry_run w [] r = r
dry_run w (d ∷ ds) r =
    dry_run w ds (would_turn_rows w (phantom_rows w d.tx_id) (would_turn_inputs d.txid d.answers r))

with_marks : Wallet × Phantoms → Marked → ReconcileReport → Effect
with_marks p m r = (
  m.0,
  record r {
    turned_off = p.1.2;
    failed = m.1;
    reqs_retired = r.reqs_retired + m.2;
    phantom_count = p.1.0;
    phantom_sats = p.1.1;
  },
)

after_phantoms : List DeadCandidate → ReconcileReport → Wallet × Phantoms → Effect
unfolding with_marks
after_phantoms dead r p =
    with_marks p (mark_failed (map (λ (d : DeadCandidate). (d.tx_id, d.txid)) dead) (p.0, 0, 0)) r

-- The inputs are released first, then the phantoms go, then the transactions fail.
unfoldable pub abandon : List DeadCandidate → Effect → Effect
unfolding after_phantoms with_marks
abandon [] e = e
abandon (d ∷ ds) e =
    let released = release_all (d ∷ ds) e in
    after_phantoms (d ∷ ds) released.1 (
      remove_phantom_outputs (map (λ (c : DeadCandidate). c.tx_id) (d ∷ ds))
        (released.0, (0, 0, released.1.turned_off)))

finish : Wallet × ℕ → ReconcileReport → Effect
finish s r = (
  s.0,
  record r {
    reqs_retired = r.reqs_retired + s.1;
    applied = true;
    balance_after = some (default_basket_sats s.0);
  },
)

unfoldable pub execute_plan : List DeadCandidate → List (ℕ × Text) → Effect → Effect
unfolding finish
execute_plan dead reqs e =
    let abandoned = abandon dead e in finish (retire_stale_reqs reqs (abandoned.0, 0)) abandoned.1

after_decision :
    Bool → Wallet → Wallet → List DeadCandidate → List (ℕ × Text) → ReconcileReport → Effect
after_decision execute read later dead reqs r =
    if not execute
    then (later, dry_run read dead r)
    else if is_empty dead && is_empty reqs
    then (later, record r { balance_after = some r.balance_before })
    else execute_plan dead reqs (later, r)

-- `read` is the store as the pass reads it, and `later` as its writes find it.
unfoldable pub reconcile_with :
    (Text → PresenceReport) → (Text → ℕ → InputSpend) → ℕ → ℕ → Bool → Wallet → Wallet → Effect
unfolding after_decision
reconcile_with probe input_spend min_age_secs absence execute read later =
    let progress = decide_transactions probe input_spend read min_age_secs absence in
    let retired = decide_requests probe input_spend read min_age_secs absence progress.0 in
    after_decision execute read later progress.1 retired.1 retired.0
