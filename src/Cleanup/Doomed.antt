-- ===== src/Cleanup/Doomed.antt =====
-- Why a pass abandons a transaction.
use bsv_wallet_cli.Prelude.{
  ℕ, ◌≡◌, refl, Bool, true, false, List, [], ◌∷◌, ◌⊎◌, inl, inr, Mem, mem-cons_self,
  mem-cons_of_mem, All, All-concat, All-Mem, Bool-cases, arith,
}
use bsv_wallet_cli.Prelude.Text.{Text}
use bsv_wallet_cli.BroadcastVerify.Rounds.{PresenceReport, verdict_rejected}
use bsv_wallet_cli.Guard.Retire.{broadcaster_took}
use bsv_wallet_cli.Cleanup.Store.{
  Wallet, TransactionRow, TrackedInput, records_of, select_stale_unproven,
}
use bsv_wallet_cli.Cleanup.Decide.{
  InputSpend, spent_by_tx, unspent, spend_unknown, Verdict, kept, verdict_inconclusive,
  absent_on_clock, dead_absent, absent_past_threshold, dead_conflict, is_dead, is_index_present,
  presence_verdict, has_conflict, is_conflict, eq_ignore_ascii_case, verdict_for,
}
use bsv_wallet_cli.Cleanup.Pass.{
  DeadCandidate, Progress, settle, answers_of, spends_of, presence_of, verdict_of, decide,
  decide_transactions,
}

-- A confirmed spend, by another transaction, among the answers.
abbrev pub Conflict : Text → List InputSpend → Type 0
Conflict our_txid spends =
    (txid : Text) × Mem (spent_by_tx txid true) spends
    × (eq_ignore_ascii_case txid our_txid ≡ false)

conflict_of :
    (our_txid : Text) (s : InputSpend)
    → is_conflict our_txid s ≡ true
    → (txid : Text) × (s ≡ spent_by_tx txid true) × (eq_ignore_ascii_case txid our_txid ≡ false)
unfolding is_conflict
conflict_of our_txid unspent h = cc
conflict_of our_txid (spent_by_tx txid is_confirmed) h = (txid, ground arith, ground arith)
conflict_of our_txid spend_unknown h = cc

Conflict-of :
    (our_txid : Text) (spends : List InputSpend)
    → has_conflict our_txid spends ≡ true
    → Conflict our_txid spends
unfolding has_conflict
Conflict-of our_txid [] h = cc
Conflict-of our_txid (s ∷ ss) h = elim (Bool-cases (is_conflict our_txid s)) [
  | inl y ↦ let (txid, e, d) = conflict_of our_txid s y in (txid, rw e mem-cons_self, d)
  | inr n ↦
      let (txid, m, d) = Conflict-of our_txid ss (simp n at h) in (txid, mem-cons_of_mem s m, d)
]

rejected_of :
    (p : PresenceReport) (age absence : ℕ)
    → presence_verdict p age absence ≡ dead_absent
    → (p.verification ≡ verdict_rejected) × (is_index_present p.chain_index ≡ false)
unfolding presence_verdict
rejected_of p age absence h = ground arith

dead_presence :
    (p : PresenceReport) (age absence : ℕ)
    → is_dead (presence_verdict p age absence) ≡ true
    → presence_verdict p age absence ≡ dead_absent
unfolding presence_verdict is_dead
dead_presence p age absence h = ground arith

no_absent : {b : Bool} → dead_conflict ≡ dead_absent → b ≡ false
no_absent q = cc

-- What `settle` adds holds of what it may add.
All-settle :
    (P : DeadCandidate → Type 0) (v : Verdict) (took : Bool) (t : TransactionRow)
    (answers : List (TrackedInput × InputSpend)) (s : Progress)
    → All P s.1
    → (is_dead v ≡ true
        → (v ≡ dead_absent → took ≡ false)
        → P (record { tx_id = t.transaction_id; txid = t.txid; answers = answers }))
    → All P (settle v took t answers s).1
unfolding settle is_dead
All-settle P dead_absent true t answers s h e = h
All-settle P dead_absent false t answers s h e = All-concat P s.1 h (e refl (λ _. refl))
All-settle P dead_conflict took t answers s h e = All-concat P s.1 h (e refl (λ q. no_absent q))
All-settle P kept took t answers s h e = h
All-settle P verdict_inconclusive took t answers s h e = h
All-settle P absent_on_clock took t answers s h e = h
All-settle P absent_past_threshold took t answers s h e = h

module _ (probe : Text → PresenceReport) (input_spend : Text → ℕ → InputSpend) (read : Wallet) where
  -- The broadcasters and the chain index deny the transaction, and no record says that one took it.
  abbrev pub Absent : Text → Type 0
  Absent txid =
      ((probe txid).verification ≡ verdict_rejected)
      × (is_index_present (probe txid).chain_index ≡ false)
      × (broadcaster_took (records_of read) txid ≡ false)

  -- The row of a transaction that the pass lists, and why it is given up.
  abbrev pub Doomed : ℕ → ℕ → Type 0
  Doomed min_age_secs id =
      (t : TransactionRow) × Mem t (select_stale_unproven read min_age_secs)
      × (t.transaction_id ≡ id)
      × (Conflict t.txid (spends_of probe input_spend read id) ⊎ Absent t.txid)

  abbrev pub IsDoomed : ℕ → DeadCandidate → Type 0
  IsDoomed min_age_secs d =
      Doomed min_age_secs d.tx_id × (d.answers ≡ answers_of probe input_spend read d.tx_id)

  Doomed-of_verdict :
      (min_age_secs absence : ℕ) (t : TransactionRow)
      → Mem t (select_stale_unproven read min_age_secs)
      → is_dead (verdict_of probe input_spend read absence t) ≡ true
      → (verdict_of probe input_spend read absence t ≡ dead_absent
          → broadcaster_took (records_of read) t.txid ≡ false)
      → Doomed min_age_secs t.transaction_id
  unfolding verdict_of verdict_for presence_of
  Doomed-of_verdict min_age_secs absence t m h took =
      let spends = spends_of probe input_spend read t.transaction_id in
      elim (Bool-cases (has_conflict t.txid spends)) [
        | inl y ↦ (t, m, refl, inl (Conflict-of t.txid spends y))
        | inr n ↦
            let p =
              rejected_of (probe t.txid) t.age_minutes absence
                (dead_presence (probe t.txid) t.age_minutes absence (simp n at h)) in
            let q = dead_presence (probe t.txid) t.age_minutes absence (simp n at h) in
            (t, m, refl, inr (p.0, p.1, took (simp n q)))
      ]

  -- Each transaction that a pass abandons is one that it lists, and dead for one of the two reasons.
  decide-IsDoomed :
      (min_age_secs absence : ℕ) (ts : List TransactionRow) (s : Progress)
      → All (λ t. Mem t (select_stale_unproven read min_age_secs)) ts
      → All (IsDoomed min_age_secs) s.1
      → All (IsDoomed min_age_secs) (decide probe input_spend read absence ts s).1
  unfolding decide
  decide-IsDoomed min_age_secs absence [] s m h = h
  decide-IsDoomed min_age_secs absence (t ∷ ts) s m h =
      decide-IsDoomed min_age_secs absence ts _ m.1 (
        All-settle (IsDoomed min_age_secs) (verdict_of probe input_spend read absence t)
          (broadcaster_took (records_of read) t.txid) t _ s h
          (λ d took. (Doomed-of_verdict min_age_secs absence t m.0 d took, refl)))

  pub decide_transactions-IsDoomed :
      (min_age_secs absence : ℕ)
      → All
          (IsDoomed min_age_secs)
          (decide_transactions probe input_spend read min_age_secs absence).1
  unfolding decide_transactions
  decide_transactions-IsDoomed min_age_secs absence =
      decide-IsDoomed min_age_secs absence (select_stale_unproven read min_age_secs) _
        (All-Mem (select_stale_unproven read min_age_secs)) tt
