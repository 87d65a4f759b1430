-- ===== src/Cleanup/Write.antt =====
-- The writes of src/commands/cleanup_abandoned.rs: the release of inputs, the removal of phantom
-- outputs, the failed transactions and the retired requests. An UPDATE changes every row that its
-- WHERE clause names.
use bsv_wallet_cli.Prelude.{
  ℕ, ◌+◌, none, Bool, true, false, ◌&&◌, not, List, [], ◌∷◌, map, ◌==◌, if◌then◌else◌, length,
  select,
}
use bsv_wallet_cli.Prelude.Text.{Text, codes, text_eq}
use bsv_wallet_cli.Guard.Retire.{is_one_of}
use bsv_wallet_cli.Cleanup.Store.{
  Wallet, OutputRow, TransactionRow, RequestRow, TrackedInput, BasketTally, tally, is_spent_by,
  phantom_rows, basket_name, polled_req_statuses,
}
use bsv_wallet_cli.Cleanup.Decide.{
  InputSpend, Release, restore, relinquish, keep_locked, release_of,
}
use bsv_wallet_cli.Cleanup.Pass.{ReconcileReport, DeadCandidate}

abbrev pub Effect : Type 0
Effect = Wallet × ReconcileReport

unfoldable pub update_where {ℓ} : {A : Type ℓ} → (A → Bool) → (A → A) → List A → List A
update_where test set rows = map (λ o. if test o then set o else o) rows

unfoldable pub rows_affected {ℓ} : {A : Type ℓ} → (A → Bool) → List A → ℕ
rows_affected test rows = length (select test rows)

-- `output_id = ? AND spent_by = ?`.
unfoldable pub is_locked_input : ℕ → TrackedInput → OutputRow → Bool
is_locked_input tx_id input o = (o.output_id == input.output_id) && is_spent_by tx_id o.spent_by

unfoldable pub unlock : Bool → OutputRow → OutputRow
unlock on o = record o { spendable = on; spent_by = none }

unfoldable pub set_outputs : Wallet → List OutputRow → Wallet
set_outputs w os = record w { outputs = os }

-- The guard of the first UPDATE: the locked input, where it is not as it is to become.
unfoldable pub turns : Bool → ℕ → TrackedInput → OutputRow → Bool
turns on tx_id input o =
    is_locked_input tx_id input o && (if on then not o.spendable else o.spendable)

unfoldable pub turns_one : Bool → ℕ → TrackedInput → List OutputRow → Bool
turns_one on tx_id input os = rows_affected (turns on tx_id input) os == 1

-- The guarded UPDATE names the rows that turn; where it named no one row, the unguarded one unlocks.
unfoldable pub release_rows : Bool → ℕ → TrackedInput → List OutputRow → List OutputRow
release_rows on tx_id input os =
    let turned = update_where (turns on tx_id input) (unlock on) os in
    if turns_one on tx_id input os
    then turned
    else update_where (is_locked_input tx_id input) (unlock on) turned

restored : Bool → TrackedInput → ReconcileReport → ReconcileReport
restored on input r = record r {
  turned_on = if on then tally r.turned_on input.basket input.satoshis else r.turned_on;
  restored_count = r.restored_count + 1;
  restored_sats = r.restored_sats + input.satoshis;
}

relinquished : Bool → TrackedInput → ReconcileReport → ReconcileReport
relinquished off input r = record r {
  turned_off = if off then tally r.turned_off input.basket input.satoshis else r.turned_off;
  relinquished_count = r.relinquished_count + 1;
  relinquished_sats = r.relinquished_sats + input.satoshis;
}

unfoldable pub release_input : Release → ℕ → TrackedInput → Effect → Effect
unfolding restored relinquished
release_input restore tx_id input (w, r) = (
  set_outputs w (release_rows true tx_id input w.outputs),
  restored (turns_one true tx_id input w.outputs) input r,
)
release_input relinquish tx_id input (w, r) = (
  set_outputs w (release_rows false tx_id input w.outputs),
  relinquished (turns_one false tx_id input w.outputs) input r,
)
release_input keep_locked tx_id input (w, r) =
    (w, record r { kept_locked_count = r.kept_locked_count + 1 })

unfoldable pub release_inputs : ℕ → Text → List (TrackedInput × InputSpend) → Effect → Effect
release_inputs tx_id our_txid [] e = e
release_inputs tx_id our_txid ((input, answer) ∷ answers) e =
    release_inputs tx_id our_txid answers (release_input (release_of our_txid answer) tx_id input e)

unfoldable pub release_all : List DeadCandidate → Effect → Effect
release_all [] e = e
release_all (d ∷ ds) e = release_all ds (release_inputs d.tx_id d.txid d.answers e)

-- The phantoms' count, their satoshis and the tallies.
abbrev pub Phantoms : Type 0
Phantoms = ℕ × ℕ × List BasketTally

is_on_output : ℕ → OutputRow → Bool
is_on_output output_id o = (o.output_id == output_id) && o.spendable

abbrev pub turn_off : OutputRow → OutputRow
turn_off o = record o { spendable = false }

count_phantom : Wallet → OutputRow → Bool → Phantoms → Phantoms
count_phantom w p off s =
    if off then (s.0 + 1, s.1 + p.satoshis, tally s.2 (basket_name w p) p.satoshis) else s

unfoldable pub remove_rows : List OutputRow → Wallet × Phantoms → Wallet × Phantoms
unfolding is_on_output count_phantom
remove_rows [] s = s
remove_rows (p ∷ ps) (w, s) = remove_rows ps (
  set_outputs w (update_where (is_on_output p.output_id) turn_off w.outputs),
  count_phantom w p (rows_affected (is_on_output p.output_id) w.outputs == 1) s,
)

unfoldable pub turn_off_all : ℕ → Wallet → Wallet
turn_off_all id w = set_outputs w (update_where (λ o. o.transaction_id == id) turn_off w.outputs)

unfoldable pub remove_phantom_outputs : List ℕ → Wallet × Phantoms → Wallet × Phantoms
remove_phantom_outputs [] s = s
remove_phantom_outputs (id ∷ ids) (w, s) =
    let removed = remove_rows (phantom_rows w id) (w, s) in
    remove_phantom_outputs ids (turn_off_all id removed.0, removed.1)

unfoldable pub unresolved_statuses : List Text
unresolved_statuses = codes "unproven" ∷ codes "sending" ∷ []

unfoldable pub is_failing : ℕ → TransactionRow → Bool
is_failing id t = (t.transaction_id == id) && is_one_of unresolved_statuses t.status

abbrev pub fail_row : TransactionRow → TransactionRow
fail_row t = record t { status = codes "failed" }

abbrev pub invalidate : RequestRow → RequestRow
invalidate q = record q { status = codes "invalid"; attempts = q.attempts + 1 }

is_polled_of : Text → RequestRow → Bool
is_polled_of txid q = text_eq q.txid txid && is_one_of polled_req_statuses q.status

-- The wallet, the transactions failed and the requests retired.
abbrev pub Marked : Type 0
Marked = Wallet × ℕ × ℕ

unfoldable pub mark_failed : List (ℕ × Text) → Marked → Marked
unfolding is_polled_of
mark_failed [] s = s
mark_failed ((id, txid) ∷ targets) (w, failed, reqs) = mark_failed targets (
  record w {
    transactions = update_where (is_failing id) fail_row w.transactions;
    requests = update_where (is_polled_of txid) invalidate w.requests;
  },
  failed + rows_affected (is_failing id) w.transactions,
  reqs + rows_affected (is_polled_of txid) w.requests,
)

is_still : ℕ → Text → RequestRow → Bool
is_still id status q = (q.proven_tx_req_id == id) && text_eq q.status status

unfoldable pub retire_stale_reqs : List (ℕ × Text) → Wallet × ℕ → Wallet × ℕ
unfolding is_still
retire_stale_reqs [] s = s
retire_stale_reqs ((id, status) ∷ reqs) (w, count) = retire_stale_reqs reqs (
  record w { requests = update_where (is_still id status) invalidate w.requests },
  count + rows_affected (is_still id status) w.requests,
)
