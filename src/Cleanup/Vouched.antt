-- ===== src/Cleanup/Vouched.antt =====
-- What stands behind an output that a pass makes spendable.
use bsv_wallet_cli.Prelude.{
  ℕ, ◌≡◌, refl, sym, List, [], ◌∷◌, map, Bool, true, false, ◌&&◌, inl, inr, is_empty, All, All-map,
  All-Mem, Pairs, Pairs-refl, Bool-cases, Mem, subst,
}
use bsv_wallet_cli.Prelude.Text.{Text}
use bsv_wallet_cli.BroadcastVerify.Rounds.{PresenceReport}
use bsv_wallet_cli.Cleanup.Store.{Wallet, TrackedInput, tracked_inputs}
use bsv_wallet_cli.Cleanup.Decide.{InputSpend, unspent}
use bsv_wallet_cli.Cleanup.Pass.{DeadCandidate, answers_of, decide_transactions, decide_requests}
use bsv_wallet_cli.Cleanup.Run.{reconcile_with}
use bsv_wallet_cli.Cleanup.Released.{
  ReleasedOnly, ReleasedOnly-refl, Vouched, execute_plan-ReleasedOnly,
}
use bsv_wallet_cli.Cleanup.Doomed.{Doomed, IsDoomed, decide_transactions-IsDoomed}

module _ (probe : Text → PresenceReport) (input_spend : Text → ℕ → InputSpend)
    (min_age_secs absence : ℕ) (read later : Wallet) where
  -- The output is an input that the pass read of an abandoned transaction, and its outpoint is
  -- unspent on the chain.
  abbrev pub Unspent : ℕ → ℕ → Type 0
  Unspent id tx =
      (i : TrackedInput) × (i.output_id ≡ id)
      × Mem i (tracked_inputs read tx)
      × (input_spend i.source_txid i.vout ≡ unspent)
      × Doomed probe input_spend read min_age_secs tx

  Vouched-inputs :
      (tx : ℕ) (is : List TrackedInput)
      → Doomed probe input_spend read min_age_secs tx
      → All (λ i. Mem i (tracked_inputs read tx)) is
      → Vouched Unspent tx (map (λ (i : TrackedInput). (i, input_spend i.source_txid i.vout)) is)
  Vouched-inputs tx [] d m = tt
  Vouched-inputs tx (i ∷ is) d m = (λ e. (i, refl, m.0, e, d), Vouched-inputs tx is d m.1)

  Vouched-of :
      (c : DeadCandidate)
      → IsDoomed probe input_spend read min_age_secs c
      → Vouched Unspent c.tx_id c.answers
  Vouched-of c (d, e) = subst (Vouched Unspent c.tx_id) (sym e) (
      unfold answers_of in
      Vouched-inputs c.tx_id (tracked_inputs read c.tx_id) d
        (All-Mem (tracked_inputs read c.tx_id)))

  abbrev dead : List DeadCandidate
  dead = (decide_transactions probe input_spend read min_age_secs absence).1

  abbrev reqs : List (ℕ × Text)
  reqs =
      (decide_requests probe input_spend read min_age_secs absence
        (decide_transactions probe input_spend read min_age_secs absence).0).1

  -- A pass leaves each output's id, transaction and value. An output is spendable after it only if
  -- it was before, or if the output was still locked by a transaction that the pass abandons, as
  -- one of the inputs that the pass read, and the chain's answer on its outpoint was unspent. An
  -- output's lock is the one before or none.
  pub reconcile_with-ReleasedOnly :
      (execute : Bool)
      → Pairs
          (ReleasedOnly Unspent)
          later.outputs
          (reconcile_with probe input_spend min_age_secs absence execute read later).0.outputs
  unfolding reconcile_with
  reconcile_with-ReleasedOnly false =
      Pairs-refl (ReleasedOnly Unspent) (ReleasedOnly-refl Unspent) later.outputs
  reconcile_with-ReleasedOnly true = elim (Bool-cases (is_empty dead && is_empty reqs)) [
    | inl y ↦ simp y (Pairs-refl (ReleasedOnly Unspent) (ReleasedOnly-refl Unspent) later.outputs)
    | inr n ↦ simp n (
        execute_plan-ReleasedOnly Unspent dead reqs _ (
          All-map (IsDoomed probe input_spend read min_age_secs)
            (λ (d : DeadCandidate). Vouched Unspent d.tx_id d.answers) Vouched-of dead
            (decide_transactions-IsDoomed probe input_spend read min_age_secs absence)))
  ]
