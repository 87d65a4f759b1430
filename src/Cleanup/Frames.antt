-- ===== src/Cleanup/Frames.antt =====
-- What each write of the clean-up leaves alone.
use bsv_wallet_cli.Prelude.{ℕ, ◌≡◌, refl, ◌∙◌, List, [], ◌∷◌}
use bsv_wallet_cli.Prelude.Text.{Text}
use bsv_wallet_cli.Cleanup.Store.{Wallet, OutputRow, TrackedInput, phantom_rows}
use bsv_wallet_cli.Cleanup.Decide.{
  InputSpend, Release, restore, relinquish, keep_locked, release_of,
}
use bsv_wallet_cli.Cleanup.Pass.{DeadCandidate}
use bsv_wallet_cli.Cleanup.Write.{
  Effect, Marked, Phantoms, release_input, release_inputs, release_all, remove_rows, turn_off_all,
  remove_phantom_outputs, mark_failed, retire_stale_reqs, set_outputs,
}

release_input-transactions :
    (r : Release) (tx_id : ℕ) (input : TrackedInput) (e : Effect)
    → (release_input r tx_id input e).0.transactions ≡ e.0.transactions
unfolding release_input set_outputs
release_input-transactions restore tx_id input e = refl
release_input-transactions relinquish tx_id input e = refl
release_input-transactions keep_locked tx_id input e = refl

release_inputs-transactions :
    (tx_id : ℕ) (our_txid : Text) (answers : List (TrackedInput × InputSpend)) (e : Effect)
    → (release_inputs tx_id our_txid answers e).0.transactions ≡ e.0.transactions
unfolding release_inputs
release_inputs-transactions tx_id our_txid [] e = refl
release_inputs-transactions tx_id our_txid (a ∷ answers) e =
    release_inputs-transactions tx_id our_txid answers _
    ∙ release_input-transactions (release_of our_txid a.1) tx_id a.0 e

pub release_all-transactions :
    (ds : List DeadCandidate) (e : Effect) → (release_all ds e).0.transactions ≡ e.0.transactions
unfolding release_all
release_all-transactions [] e = refl
release_all-transactions (d ∷ ds) e =
    release_all-transactions ds _ ∙ release_inputs-transactions d.tx_id d.txid d.answers e

remove_rows-transactions :
    (ps : List OutputRow) (s : Wallet × Phantoms)
    → (remove_rows ps s).0.transactions ≡ s.0.transactions
unfolding remove_rows set_outputs
remove_rows-transactions [] s = refl
remove_rows-transactions (p ∷ ps) s = remove_rows-transactions ps _

pub remove_phantom_outputs-transactions :
    (ids : List ℕ) (s : Wallet × Phantoms)
    → (remove_phantom_outputs ids s).0.transactions ≡ s.0.transactions
unfolding remove_phantom_outputs turn_off_all set_outputs
remove_phantom_outputs-transactions [] s = refl
remove_phantom_outputs-transactions (id ∷ ids) s =
    remove_phantom_outputs-transactions ids _ ∙ remove_rows-transactions (phantom_rows s.0 id) s

pub mark_failed-outputs :
    (targets : List (ℕ × Text)) (s : Marked) → (mark_failed targets s).0.outputs ≡ s.0.outputs
unfolding mark_failed
mark_failed-outputs [] s = refl
mark_failed-outputs (t ∷ targets) s = mark_failed-outputs targets _

pub retire_stale_reqs-tables :
    (reqs : List (ℕ × Text)) (s : Wallet × ℕ)
    → ((retire_stale_reqs reqs s).0.transactions ≡ s.0.transactions)
      × ((retire_stale_reqs reqs s).0.outputs ≡ s.0.outputs)
unfolding retire_stale_reqs
retire_stale_reqs-tables [] s = (refl, refl)
retire_stale_reqs-tables (r ∷ reqs) s = retire_stale_reqs-tables reqs _
