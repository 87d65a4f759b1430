-- ===== src/Cleanup/Phantoms.antt =====
-- The outputs of abandoned transactions after a pass that writes.
use bsv_wallet_cli.Prelude.{
  ℕ, ◌≡◌, refl, List, [], ◌∷◌, map, Bool, true, false, ◌&&◌, inl, inr, ◌==◌, is_empty, any, All,
  Bool-cases, arith,
}
use bsv_wallet_cli.Prelude.Text.{Text}
use bsv_wallet_cli.BroadcastVerify.Rounds.{PresenceReport}
use bsv_wallet_cli.Cleanup.Store.{Wallet, OutputRow, phantom_rows}
use bsv_wallet_cli.Cleanup.Decide.{InputSpend}
use bsv_wallet_cli.Cleanup.Pass.{DeadCandidate, decide_transactions, decide_requests}
use bsv_wallet_cli.Cleanup.Write.{
  Effect, Phantoms, update_where, set_outputs, turn_off, remove_rows, turn_off_all,
  remove_phantom_outputs,
}
use bsv_wallet_cli.Cleanup.Run.{abandon, execute_plan, reconcile_with}
use bsv_wallet_cli.Cleanup.Frames.{mark_failed-outputs, retire_stale_reqs-tables}

-- No output of the transaction is spendable.
abbrev Off : ℕ → OutputRow → Type 0
Off id o = ((o.transaction_id == id) && o.spendable) ≡ false

All-update :
    (id : ℕ) (test : OutputRow → Bool) (os : List OutputRow)
    → All (Off id) os
    → All (Off id) (update_where test turn_off os)
unfolding update_where
All-update id test [] h = tt
All-update id test (o ∷ os) h = (ground arith, All-update id test os h.1)

All-update_own :
    (id : ℕ) (os : List OutputRow)
    → All (Off id) (update_where (λ o. o.transaction_id == id) turn_off os)
unfolding update_where
All-update_own id [] = tt
All-update_own id (o ∷ os) = (ground arith, All-update_own id os)

remove_rows-Off :
    (id : ℕ) (ps : List OutputRow) (s : Wallet × Phantoms)
    → All (Off id) s.0.outputs
    → All (Off id) (remove_rows ps s).0.outputs
unfolding remove_rows set_outputs
remove_rows-Off id [] s h = h
remove_rows-Off id (p ∷ ps) s h = remove_rows-Off id ps _ (All-update id _ s.0.outputs h)

remove_phantom_outputs-keeps :
    (id : ℕ) (ids : List ℕ) (s : Wallet × Phantoms)
    → All (Off id) s.0.outputs
    → All (Off id) (remove_phantom_outputs ids s).0.outputs
unfolding remove_phantom_outputs turn_off_all set_outputs
remove_phantom_outputs-keeps id [] s h = h
remove_phantom_outputs-keeps id (i ∷ ids) s h =
    remove_phantom_outputs-keeps id ids _
      (All-update id (λ o. o.transaction_id == i) _ (remove_rows-Off id (phantom_rows s.0 i) s h))

remove_phantom_outputs-Off :
    (ids : List ℕ) (s : Wallet × Phantoms)
    → All (λ id. All (Off id) (remove_phantom_outputs ids s).0.outputs) ids
unfolding remove_phantom_outputs turn_off_all set_outputs
remove_phantom_outputs-Off [] s = tt
remove_phantom_outputs-Off (id ∷ ids) s =
    (remove_phantom_outputs-keeps id ids _ (All-update_own id _), remove_phantom_outputs-Off ids _)

-- An output of one of the transactions that can be spent.
abbrev pub is_phantom_of : List DeadCandidate → OutputRow → Bool
is_phantom_of ds o = any (λ (d : DeadCandidate). (o.transaction_id == d.tx_id) && o.spendable) ds

none_here :
    (ds : List DeadCandidate) (o : OutputRow)
    → All (λ (d : DeadCandidate). Off d.tx_id o) ds
    → is_phantom_of ds o ≡ false
none_here [] o h = refl
none_here (d ∷ ds) o h = rw h.0 (none_here ds o h.1)

swap-All :
    (ds : List DeadCandidate) (o : OutputRow) (os : List OutputRow)
    → All (λ id. All (Off id) (o ∷ os)) (map (λ (d : DeadCandidate). d.tx_id) ds)
    → All (λ (d : DeadCandidate). Off d.tx_id o) ds
      × All (λ id. All (Off id) os) (map (λ (d : DeadCandidate). d.tx_id) ds)
swap-All [] o os h = (tt, tt)
swap-All (d ∷ ds) o os h = let (a, b) = swap-All ds o os h.1 in ((h.0.0, a), (h.0.1, b))

no_phantoms :
    (ds : List DeadCandidate) (os : List OutputRow)
    → All (λ id. All (Off id) os) (map (λ (d : DeadCandidate). d.tx_id) ds)
    → any (is_phantom_of ds) os ≡ false
no_phantoms ds [] h = refl
no_phantoms ds (o ∷ os) h =
    let (a, b) = swap-All ds o os h in rw (none_here ds o a) (no_phantoms ds os b)

no_phantoms_of_none : (os : List OutputRow) → any (is_phantom_of []) os ≡ false
no_phantoms_of_none [] = refl
no_phantoms_of_none (o ∷ os) = no_phantoms_of_none os

abandon-no_phantoms :
    (ds : List DeadCandidate) (e : Effect) → any (is_phantom_of ds) (abandon ds e).0.outputs ≡ false
unfolding abandon
abandon-no_phantoms [] e = no_phantoms_of_none e.0.outputs
abandon-no_phantoms (d ∷ ds) e =
    rw (mark_failed-outputs (map (λ (d : DeadCandidate). (d.tx_id, d.txid)) (d ∷ ds)) _) (
      no_phantoms (d ∷ ds) _
        (remove_phantom_outputs-Off (map (λ (d : DeadCandidate). d.tx_id) (d ∷ ds)) _))

execute_plan-no_phantoms :
    (ds : List DeadCandidate) (reqs : List (ℕ × Text)) (e : Effect)
    → any (is_phantom_of ds) (execute_plan ds reqs e).0.outputs ≡ false
unfolding execute_plan
execute_plan-no_phantoms ds reqs e =
    rw (retire_stale_reqs-tables reqs ((abandon ds e).0, 0)).1 (abandon-no_phantoms ds e)

module _ (probe : Text → PresenceReport) (input_spend : Text → ℕ → InputSpend)
    (min_age_secs absence : ℕ) (read later : Wallet) where
  abbrev pub dead_of_pass : List DeadCandidate
  dead_of_pass = (decide_transactions probe input_spend read min_age_secs absence).1

  empty_none :
      (ds : List DeadCandidate) → is_empty ds ≡ true → any (is_phantom_of ds) later.outputs ≡ false
  empty_none [] h = no_phantoms_of_none later.outputs
  empty_none (d ∷ ds) h = cc

  -- After a pass that writes, no output of a transaction that it abandoned is spendable, also where
  -- another abandoned transaction's input was that output and was given back.
  pub reconcile_with-no_phantoms :
      any
        (is_phantom_of dead_of_pass)
        (reconcile_with probe input_spend min_age_secs absence true read later).0.outputs
      ≡ false
  unfolding reconcile_with
  reconcile_with-no_phantoms =
      let reqs : List (ℕ × Text) =
        (decide_requests probe input_spend read min_age_secs absence
          (decide_transactions probe input_spend read min_age_secs absence).0).1 in
      elim (Bool-cases (is_empty dead_of_pass && is_empty reqs)) [
        | inl y ↦ simp y (empty_none dead_of_pass (ground arith))
        | inr n ↦ simp n (execute_plan-no_phantoms dead_of_pass reqs _)
      ]
