-- ===== src/Cleanup/Released.antt =====
-- Which outputs a pass makes spendable.
use bsv_wallet_cli.Prelude.{
  ℕ, ◌≡◌, refl, sym, ap, ◌∙◌, subst, Option, none, some, List, [], ◌∷◌, map, Bool, true, false, ◌⊎◌,
  inl, inr, ◌==◌, ==_iff, if◌then◌else◌, All, Pairs, Pairs-map, Pairs-refl, Pairs-trans, Bool-cases,
  arith,
}
use bsv_wallet_cli.Prelude.Text.{Text}
use bsv_wallet_cli.Cleanup.Store.{Wallet, OutputRow, TrackedInput, is_spent_by, phantom_rows}
use bsv_wallet_cli.Cleanup.Decide.{
  InputSpend, unspent, spent_by_tx, spend_unknown, Release, restore, relinquish, keep_locked,
  release_of,
}
use bsv_wallet_cli.Cleanup.Pass.{DeadCandidate}
use bsv_wallet_cli.Cleanup.Write.{
  Effect, Phantoms, update_where, is_locked_input, turns, turns_one, unlock, set_outputs,
  release_rows, release_input, release_inputs, release_all, turn_off, remove_rows, turn_off_all,
  remove_phantom_outputs,
}
use bsv_wallet_cli.Cleanup.Run.{abandon, execute_plan}
use bsv_wallet_cli.Cleanup.Frames.{mark_failed-outputs, retire_stale_reqs-tables}

-- `P id tx`: the output `id` may be given back by the transaction `tx`.
module _ (P : ℕ → ℕ → Type 0) where
  abbrev pub MayRelease : OutputRow → Type 0
  MayRelease o = (tx : ℕ) × (o.spent_by ≡ some tx) × P o.output_id tx

  -- An output keeps its id, its transaction and its value. It is spendable only where it was, or
  -- where a transaction held it which may give it back; and it is held as before, or not at all.
  abbrev pub ReleasedOnly : OutputRow → OutputRow → Type 0
  ReleasedOnly o o' =
      (o'.output_id ≡ o.output_id)
      × (o'.transaction_id ≡ o.transaction_id)
      × (o'.satoshis ≡ o.satoshis)
      × ((o'.spendable ≡ false) ⊎ (o.spendable ≡ true) ⊎ MayRelease o)
      × ((o'.spent_by ≡ o.spent_by) ⊎ (o'.spent_by ≡ none))

  pub ReleasedOnly-refl : (o : OutputRow) → ReleasedOnly o o
  ReleasedOnly-refl o = (refl, refl, refl, still (Bool-cases o.spendable), inl refl)
    where
      still :
          (o.spendable ≡ true) ⊎ (o.spendable ≡ false)
          → (o.spendable ≡ false) ⊎ (o.spendable ≡ true) ⊎ MayRelease o
      still (inl y) = inr (inl y)
      still (inr n) = inl n

  MayRelease-before :
      (a b : OutputRow)
      → b.output_id ≡ a.output_id
      → (b.spent_by ≡ a.spent_by) ⊎ (b.spent_by ≡ none)
      → MayRelease b
      → MayRelease a
  MayRelease-before a b i (inl e) (tx, s, p) = (tx, sym e ∙ s, subst (λ id. P id tx) i p)
  MayRelease-before a b i (inr e) (tx, s, p) = cc

  spendable_trans :
      (a b c : OutputRow)
      → ReleasedOnly a b
      → (c.spendable ≡ false) ⊎ (b.spendable ≡ true) ⊎ MayRelease b
      → (c.spendable ≡ false) ⊎ (a.spendable ≡ true) ⊎ MayRelease a
  spendable_trans a b c r (inl n) = inl n
  spendable_trans a b c (_, _, _, inl n, _) (inr (inl y)) = cc
  spendable_trans a b c (_, _, _, inr m, _) (inr (inl y)) = inr m
  spendable_trans a b c r (inr (inr m)) = inr (inr (MayRelease-before a b r.0 r.4 m))

  spent_by_trans :
      (a b c : OutputRow)
      → (b.spent_by ≡ a.spent_by) ⊎ (b.spent_by ≡ none)
      → (c.spent_by ≡ b.spent_by) ⊎ (c.spent_by ≡ none)
      → (c.spent_by ≡ a.spent_by) ⊎ (c.spent_by ≡ none)
  spent_by_trans a b c x (inr n) = inr n
  spent_by_trans a b c (inl e) (inl f) = inl (f ∙ e)
  spent_by_trans a b c (inr n) (inl f) = inr (f ∙ n)

  ReleasedOnly-trans : (a b c : OutputRow) → ReleasedOnly a b → ReleasedOnly b c → ReleasedOnly a c
  ReleasedOnly-trans a b c r s =
      (s.0 ∙ r.0, s.1 ∙ r.1, s.2 ∙ r.2, spendable_trans a b c r s.3, spent_by_trans a b c r.4 s.4)

  spent_by_of : (tx_id : ℕ) (s : Option ℕ) → is_spent_by tx_id s ≡ true → s ≡ some tx_id
  unfolding is_spent_by
  spent_by_of tx_id none h = cc
  spent_by_of tx_id (some id) h = ap some ((==_iff id tx_id).0 h)

  ReleasedOnly-unlock :
      (on : Bool) (tx_id : ℕ) (input : TrackedInput) (o : OutputRow)
      → (on ≡ false) ⊎ P input.output_id tx_id
      → is_locked_input tx_id input o ≡ true
      → ReleasedOnly o (unlock on o)
  unfolding unlock is_locked_input
  ReleasedOnly-unlock on tx_id input o (inl off) h = (refl, refl, refl, inl off, inr refl)
  ReleasedOnly-unlock on tx_id input o (inr p) h = (
    refl,
    refl,
    refl,
    inr (
        inr (
          tx_id,
          spent_by_of tx_id o.spent_by (ground arith),
          subst (λ id. P id tx_id) (sym ((==_iff o.output_id input.output_id).0 (ground arith))) p,
        )),
    inr refl,
  )

  Outputs-update :
      (test : OutputRow → Bool) (set : OutputRow → OutputRow) (os : List OutputRow)
      → ((o : OutputRow) → test o ≡ true → ReleasedOnly o (set o))
      → Pairs ReleasedOnly os (update_where test set os)
  unfolding update_where
  Outputs-update test set os h = Pairs-map ReleasedOnly _ step os
    where
      step : (o : OutputRow) → ReleasedOnly o (if test o then set o else o)
      step o = elim (Bool-cases (test o)) [
        | inl y ↦ rw y (h o y)
        | inr n ↦ rw n (ReleasedOnly-refl o)
      ]

  Outputs_trans :
      (xs ys zs : List OutputRow)
      → Pairs ReleasedOnly xs ys
      → Pairs ReleasedOnly ys zs
      → Pairs ReleasedOnly xs zs
  Outputs_trans = Pairs-trans ReleasedOnly ReleasedOnly-trans

  locked_of_turns :
      (on : Bool) (tx_id : ℕ) (input : TrackedInput) (o : OutputRow)
      → turns on tx_id input o ≡ true
      → is_locked_input tx_id input o ≡ true
  unfolding turns
  locked_of_turns on tx_id input o h = ground arith

  release_rows-ReleasedOnly :
      (on : Bool) (tx_id : ℕ) (input : TrackedInput) (os : List OutputRow)
      → (on ≡ false) ⊎ P input.output_id tx_id
      → Pairs ReleasedOnly os (release_rows on tx_id input os)
  unfolding release_rows
  release_rows-ReleasedOnly on tx_id input os p = elim (Bool-cases (turns_one on tx_id input os)) [
    | inl y ↦ simp y guarded
    | inr n ↦ simp n (
        Outputs_trans os _ _ guarded (
          Outputs-update (is_locked_input tx_id input) (unlock on) _
            (λ o. ReleasedOnly-unlock on tx_id input o p)))
  ]
    where
      guarded : Pairs ReleasedOnly os (update_where (turns on tx_id input) (unlock on) os)
      guarded =
          Outputs-update (turns on tx_id input) (unlock on) os
            (λ o h. ReleasedOnly-unlock on tx_id input o p (locked_of_turns on tx_id input o h))

  release_input-ReleasedOnly :
      (r : Release) (tx_id : ℕ) (input : TrackedInput) (e : Effect)
      → (r ≡ restore → P input.output_id tx_id)
      → Pairs ReleasedOnly e.0.outputs (release_input r tx_id input e).0.outputs
  unfolding release_input set_outputs
  release_input-ReleasedOnly restore tx_id input e p =
      release_rows-ReleasedOnly true tx_id input e.0.outputs (inr (p refl))
  release_input-ReleasedOnly relinquish tx_id input e p =
      release_rows-ReleasedOnly false tx_id input e.0.outputs (inl refl)
  release_input-ReleasedOnly keep_locked tx_id input e p =
      Pairs-refl ReleasedOnly ReleasedOnly-refl e.0.outputs

  restore_of : (our_txid : Text) (a : InputSpend) → release_of our_txid a ≡ restore → a ≡ unspent
  unfolding release_of
  restore_of our_txid unspent h = refl
  restore_of our_txid (spent_by_tx txid is_confirmed) h = ground arith
  restore_of our_txid spend_unknown h = cc

  -- Each unspent answer is one that may give its output back.
  abbrev pub Vouched : ℕ → List (TrackedInput × InputSpend) → Type 0
  Vouched tx_id = All (λ (a : TrackedInput × InputSpend). a.1 ≡ unspent → P a.0.output_id tx_id)

  release_inputs-ReleasedOnly :
      (tx_id : ℕ) (our_txid : Text) (answers : List (TrackedInput × InputSpend)) (e : Effect)
      → Vouched tx_id answers
      → Pairs ReleasedOnly e.0.outputs (release_inputs tx_id our_txid answers e).0.outputs
  unfolding release_inputs
  release_inputs-ReleasedOnly tx_id our_txid [] e h =
      Pairs-refl ReleasedOnly ReleasedOnly-refl e.0.outputs
  release_inputs-ReleasedOnly tx_id our_txid (a ∷ answers) e h =
      Outputs_trans e.0.outputs _ _
        (release_input-ReleasedOnly (release_of our_txid a.1) tx_id a.0 e
          (λ r. h.0 (restore_of our_txid a.1 r)))
        (release_inputs-ReleasedOnly tx_id our_txid answers _ h.1)

  release_all-ReleasedOnly :
      (ds : List DeadCandidate) (e : Effect)
      → All (λ (d : DeadCandidate). Vouched d.tx_id d.answers) ds
      → Pairs ReleasedOnly e.0.outputs (release_all ds e).0.outputs
  unfolding release_all
  release_all-ReleasedOnly [] e h = Pairs-refl ReleasedOnly ReleasedOnly-refl e.0.outputs
  release_all-ReleasedOnly (d ∷ ds) e h =
      Outputs_trans e.0.outputs _ _ (release_inputs-ReleasedOnly d.tx_id d.txid d.answers e h.0)
        (release_all-ReleasedOnly ds _ h.1)

  turn_off-ReleasedOnly : (o : OutputRow) → ReleasedOnly o (turn_off o)
  turn_off-ReleasedOnly o = (refl, refl, refl, inl refl, inl refl)

  remove_rows-ReleasedOnly :
      (ps : List OutputRow) (s : Wallet × Phantoms)
      → Pairs ReleasedOnly s.0.outputs (remove_rows ps s).0.outputs
  unfolding remove_rows set_outputs
  remove_rows-ReleasedOnly [] s = Pairs-refl ReleasedOnly ReleasedOnly-refl s.0.outputs
  remove_rows-ReleasedOnly (p ∷ ps) s =
      Outputs_trans s.0.outputs _ _
        (Outputs-update _ turn_off s.0.outputs (λ o h. turn_off-ReleasedOnly o))
        (remove_rows-ReleasedOnly ps _)

  remove_phantom_outputs-ReleasedOnly :
      (ids : List ℕ) (s : Wallet × Phantoms)
      → Pairs ReleasedOnly s.0.outputs (remove_phantom_outputs ids s).0.outputs
  unfolding remove_phantom_outputs turn_off_all set_outputs
  remove_phantom_outputs-ReleasedOnly [] s = Pairs-refl ReleasedOnly ReleasedOnly-refl s.0.outputs
  remove_phantom_outputs-ReleasedOnly (id ∷ ids) s =
      Outputs_trans s.0.outputs _ _
        (Outputs_trans s.0.outputs _ _ (remove_rows-ReleasedOnly (phantom_rows s.0 id) s) (
          Outputs-update (λ o. o.transaction_id == id) turn_off _ (λ o h. turn_off-ReleasedOnly o)))
        (remove_phantom_outputs-ReleasedOnly ids _)

  abandon-ReleasedOnly :
      (ds : List DeadCandidate) (e : Effect)
      → All (λ (d : DeadCandidate). Vouched d.tx_id d.answers) ds
      → Pairs ReleasedOnly e.0.outputs (abandon ds e).0.outputs
  unfolding abandon
  abandon-ReleasedOnly [] e h = Pairs-refl ReleasedOnly ReleasedOnly-refl e.0.outputs
  abandon-ReleasedOnly (d ∷ ds) e h =
      rw (mark_failed-outputs (map (λ (d : DeadCandidate). (d.tx_id, d.txid)) (d ∷ ds)) _) (
        Outputs_trans e.0.outputs _ _ (release_all-ReleasedOnly (d ∷ ds) e h)
          (remove_phantom_outputs-ReleasedOnly _ _))

  pub execute_plan-ReleasedOnly :
      (ds : List DeadCandidate) (reqs : List (ℕ × Text)) (e : Effect)
      → All (λ (d : DeadCandidate). Vouched d.tx_id d.answers) ds
      → Pairs ReleasedOnly e.0.outputs (execute_plan ds reqs e).0.outputs
  unfolding execute_plan
  execute_plan-ReleasedOnly ds reqs e h =
      rw (retire_stale_reqs-tables reqs ((abandon ds e).0, 0)).1 (abandon-ReleasedOnly ds e h)
