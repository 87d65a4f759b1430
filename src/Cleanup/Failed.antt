-- ===== src/Cleanup/Failed.antt =====
-- Which transactions a pass fails.
use bsv_wallet_cli.Prelude.{
  ℕ, ◌≡◌, refl, sym, ap, ◌∙◌, subst, List, [], ◌∷◌, map, Bool, true, false, ◌&&◌, ◌⊎◌, inl, inr,
  ==_iff, if◌then◌else◌, is_empty, All, All-map, Pairs, Pairs-map, Pairs-refl, Pairs-trans,
  Bool-cases, arith,
}
use bsv_wallet_cli.Prelude.Text.{Text}
use bsv_wallet_cli.BroadcastVerify.Rounds.{PresenceReport}
use bsv_wallet_cli.Guard.Retire.{is_one_of}
use bsv_wallet_cli.Cleanup.Store.{Wallet, TransactionRow}
use bsv_wallet_cli.Cleanup.Decide.{InputSpend}
use bsv_wallet_cli.Cleanup.Pass.{DeadCandidate, decide_transactions, decide_requests}
use bsv_wallet_cli.Cleanup.Write.{
  Effect, Marked, unresolved_statuses, is_failing, fail_row, mark_failed, update_where,
}
use bsv_wallet_cli.Cleanup.Run.{abandon, execute_plan, reconcile_with}
use bsv_wallet_cli.Cleanup.Frames.{
  release_all-transactions, remove_phantom_outputs-transactions, retire_stale_reqs-tables,
}
use bsv_wallet_cli.Cleanup.Doomed.{Doomed, IsDoomed, decide_transactions-IsDoomed}

module _ (P : ℕ → Type 0) where
  -- A row is as it was, or it failed from an unresolved status and `P` holds of its id.
  abbrev pub FailedOnly : TransactionRow → TransactionRow → Type 0
  FailedOnly t t' =
      (t' ≡ t)
      ⊎ ((t' ≡ fail_row t) × (is_one_of unresolved_statuses t.status ≡ true) × P t.transaction_id)

  FailedOnly-trans : (a b c : TransactionRow) → FailedOnly a b → FailedOnly b c → FailedOnly a c
  FailedOnly-trans a b c (inl e) r = subst (λ x. FailedOnly x c) e r
  FailedOnly-trans a b c (inr (e, u, p)) (inl f) = inr (f ∙ e, u, p)
  FailedOnly-trans a b c (inr (e, u, p)) (inr (f, _, _)) = inr (f ∙ ap fail_row e, u, p)

  FailedOnly-fail :
      (id : ℕ)
      → P id
      → (t : TransactionRow) → FailedOnly t (if is_failing id t then fail_row t else t)
  unfolding is_failing
  FailedOnly-fail id p t = elim (Bool-cases (is_failing id t)) [
    | inl y ↦
        simp y (
          inr (refl, ground arith, subst P (sym ((==_iff t.transaction_id id).0 (ground arith))) p))
    | inr n ↦ simp n (inl refl)
  ]

  mark_failed-FailedOnly :
      (targets : List (ℕ × Text)) (s : Marked)
      → All (λ (target : ℕ × Text). P target.0) targets
      → Pairs FailedOnly s.0.transactions (mark_failed targets s).0.transactions
  unfolding mark_failed update_where
  mark_failed-FailedOnly [] s h = Pairs-refl FailedOnly (λ t. inl refl) s.0.transactions
  mark_failed-FailedOnly (target ∷ targets) s h =
      Pairs-trans FailedOnly FailedOnly-trans s.0.transactions _ _
        (Pairs-map FailedOnly _ (FailedOnly-fail target.0 h.0) s.0.transactions)
        (mark_failed-FailedOnly targets _ h.1)

  targets_of :
      (ds : List DeadCandidate)
      → All (λ (d : DeadCandidate). P d.tx_id) ds
      → All (λ (target : ℕ × Text). P target.0) (map (λ (d : DeadCandidate). (d.tx_id, d.txid)) ds)
  targets_of [] h = tt
  targets_of (d ∷ ds) h = (h.0, targets_of ds h.1)

  abandon-FailedOnly :
      (ds : List DeadCandidate) (e : Effect)
      → All (λ (d : DeadCandidate). P d.tx_id) ds
      → Pairs FailedOnly e.0.transactions (abandon ds e).0.transactions
  unfolding abandon
  abandon-FailedOnly [] e h = Pairs-refl FailedOnly (λ t. inl refl) e.0.transactions
  abandon-FailedOnly (d ∷ ds) e h =
      subst (λ ts. Pairs FailedOnly ts (abandon (d ∷ ds) e).0.transactions)
        (remove_phantom_outputs-transactions _ _ ∙ release_all-transactions (d ∷ ds) e)
        (mark_failed-FailedOnly _ _ (targets_of (d ∷ ds) h))

  execute_plan-FailedOnly :
      (ds : List DeadCandidate) (reqs : List (ℕ × Text)) (e : Effect)
      → All (λ (d : DeadCandidate). P d.tx_id) ds
      → Pairs FailedOnly e.0.transactions (execute_plan ds reqs e).0.transactions
  unfolding execute_plan
  execute_plan-FailedOnly ds reqs e h =
      rw (retire_stale_reqs-tables reqs ((abandon ds e).0, 0)).0 (abandon-FailedOnly ds e h)

module _ (probe : Text → PresenceReport) (input_spend : Text → ℕ → InputSpend)
    (min_age_secs absence : ℕ) (read later : Wallet) where
  abbrev dead : List DeadCandidate
  dead = (decide_transactions probe input_spend read min_age_secs absence).1

  abbrev reqs : List (ℕ × Text)
  reqs =
      (decide_requests probe input_spend read min_age_secs absence
        (decide_transactions probe input_spend read min_age_secs absence).0).1

  -- A pass leaves every transaction's row as its writes found it, or fails it, and it fails only a
  -- row that was unproven or sending, whose id is that of a transaction which the pass listed and
  -- of which a confirmed spend by another transaction took an input, or which the verifier rejected
  -- with no chain index holding it and no record that a broadcaster took it.
  pub reconcile_with-FailedOnly :
      (execute : Bool)
      → Pairs
          (FailedOnly (Doomed probe input_spend read min_age_secs))
          later.transactions
          (reconcile_with probe input_spend min_age_secs absence execute read later).0.transactions
  unfolding reconcile_with
  reconcile_with-FailedOnly false = Pairs-refl (FailedOnly _) (λ t. inl refl) later.transactions
  reconcile_with-FailedOnly true = elim (Bool-cases (is_empty dead && is_empty reqs)) [
    | inl y ↦ simp y (Pairs-refl (FailedOnly _) (λ t. inl refl) later.transactions)
    | inr n ↦ simp n (
        execute_plan-FailedOnly (Doomed probe input_spend read min_age_secs) dead reqs _ (
          All-map (IsDoomed probe input_spend read min_age_secs)
            (λ d. Doomed probe input_spend read min_age_secs d.tx_id) (λ d h. h.0) dead
            (decide_transactions-IsDoomed probe input_spend read min_age_secs absence)))
  ]
