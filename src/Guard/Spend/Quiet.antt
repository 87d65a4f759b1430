-- ===== src/Guard/Spend/Quiet.antt =====
-- What the spend guard leaves selectable.
use bsv_wallet_cli.Prelude.{
  ℕ, ◌≡◌, refl, sym, ap, ◌∙◌, subst, Option, none, some, Bool, true, false, ◌&&◌, ◌||◌, not, List,
  [], ◌∷◌, ◌==◌, any, map, All, All-map, is_some, Bool-cases, inl, inr, arith,
}
use bsv_wallet_cli.Prelude.Text.{Text}
use bsv_wallet_cli.Guard.Spend.{
  GuardOutput, Hold, GuardStore, GuardReport, is_selectable, txid_to_hold, rows_to_hold, set_held,
  hold_row, hold_rows, settle_all, held_txids, run, held_row, quiet_report,
}

-- The output could be selected, though a hint is the last word on its transaction.
abbrev pub is_exposed : GuardStore → GuardOutput → Bool
is_exposed st o = is_selectable o && is_some (txid_to_hold st o.transaction_id)

-- One output through the rows.
through : List Hold → GuardOutput → GuardOutput
through [] o = o
through (h ∷ hs) o = through hs (set_held h.output_id o)

map-map :
    (f g : GuardOutput → GuardOutput) (os : List GuardOutput)
    → map g (map f os) ≡ map (λ o. g (f o)) os
map-map f g [] = refl
map-map f g (o ∷ os) = ap (λ r. g (f o) ∷ r) (map-map f g os)

map-through-nil : (os : List GuardOutput) → map (through []) os ≡ os
unfolding through
map-through-nil [] = refl
map-through-nil (o ∷ os) = ap (λ r. o ∷ r) (map-through-nil os)

outputs-hold_rows :
    (hs : List Hold) (s : GuardStore × GuardReport)
    → (hold_rows hs s).0.outputs ≡ map (through hs) s.0.outputs
unfolding hold_rows through
outputs-hold_rows [] s = sym (map-through-nil s.0.outputs)
outputs-hold_rows (h ∷ hs) (st, rep) =
    outputs-hold_rows hs (hold_row h (st, rep))
    ∙ map-map (set_held h.output_id) (through hs) st.outputs

-- The guard writes no transaction and no request.
txid_to_hold-hold_rows :
    (hs : List Hold) (s : GuardStore × GuardReport) (id : ℕ)
    → txid_to_hold (hold_rows hs s).0 id ≡ txid_to_hold s.0 id
unfolding hold_rows txid_to_hold
txid_to_hold-hold_rows [] s id = refl
txid_to_hold-hold_rows (h ∷ hs) (st, rep) id = txid_to_hold-hold_rows hs (hold_row h (st, rep)) id

-- A hold only ends that an output is selectable.
exposed-set_held :
    (st : GuardStore) (id : ℕ) (o : GuardOutput)
    → is_exposed st (set_held id o) ≡ is_exposed st o && not (o.output_id == id)
unfolding set_held
exposed-set_held st id o = elim (Bool-cases ((o.output_id == id) && is_selectable o)) [
  | inl y ↦ simp y (ground arith)
  | inr n ↦ simp n (ground arith)
]

id-set_held : (id : ℕ) (o : GuardOutput) → (set_held id o).output_id ≡ o.output_id
unfolding set_held
id-set_held id o = elim (Bool-cases ((o.output_id == id) && is_selectable o)) [
  | inl y ↦ simp y
  | inr n ↦ simp n
]

abbrev names : GuardOutput → List Hold → Bool
names o hs = any (λ (h : Hold). o.output_id == h.output_id) hs

exposed-through :
    (st : GuardStore) (hs : List Hold) (o : GuardOutput)
    → is_exposed st (through hs o) ≡ is_exposed st o && not (names o hs)
unfolding through
exposed-through st [] o = ground arith
exposed-through st (h ∷ hs) o =
    let next = set_held h.output_id o in
    let rest : is_exposed st (through hs next) ≡ is_exposed st next && not (names next hs) =
      exposed-through st hs next in
    let same : names next hs ≡ names o hs =
      ap (λ id. any (λ (k : Hold). id == k.output_id) hs) (id-set_held h.output_id o) in
    rest ∙ ground (arith, same, exposed-set_held st h.output_id o)

abbrev Covered : GuardStore → List Hold → GuardOutput → Type 0
Covered st hs o = (not (is_exposed st o) || names o hs) ≡ true

Covered-held_row :
    (st : GuardStore) (b : Bool) (p : GuardOutput) (t : Option Text) (hs : List Hold)
    (o : GuardOutput)
    → Covered st hs o
    → Covered st (held_row b p t hs) o
unfolding held_row
Covered-held_row st b p none hs o h = h
Covered-held_row st true p (some t) hs o h = ground arith
Covered-held_row st false p (some t) hs o h = h

Covered-own :
    (st : GuardStore) (o : GuardOutput) (t : Option Text) (hs : List Hold)
    → t ≡ txid_to_hold st o.transaction_id
    → Covered st (held_row (is_selectable o) o t hs) o
unfolding held_row
Covered-own st o none hs e = ground arith
Covered-own st o (some t) hs e = elim (Bool-cases (is_selectable o)) [
  | inl y ↦ simp y (ground arith)
  | inr n ↦ simp n (ground arith)
]

Covered-rows_to_hold :
    (st : GuardStore) (os : List GuardOutput) → All (Covered st (rows_to_hold st os)) os
unfolding rows_to_hold
Covered-rows_to_hold st [] = tt
Covered-rows_to_hold st (o ∷ os) =
    let rest = rows_to_hold st os in
    let t = txid_to_hold st o.transaction_id in
    (
      Covered-own st o t rest refl,
      All-map (Covered st rest) (Covered st (held_row (is_selectable o) o t rest))
          (λ p h. Covered-held_row st (is_selectable o) o t rest p h) os
          (Covered-rows_to_hold st os),
    )

All-through :
    (st : GuardStore) (hs : List Hold) (os : List GuardOutput)
    → All (Covered st hs) os
    → All (λ o. is_exposed st o ≡ false) (map (through hs) os)
All-through st hs [] c = tt
All-through st hs (o ∷ os) c = (exposed-through st hs o ∙ ground arith, All-through st hs os c.1)

-- Holding the rows that the guard selects leaves no output exposed.
hold_rows-quiet :
    (s : GuardStore × GuardReport)
    → let after = (hold_rows (rows_to_hold s.0 s.0.outputs) s).0 in
      All (λ o. is_exposed after o ≡ false) after.outputs
hold_rows-quiet s =
    let hs = rows_to_hold s.0 s.0.outputs in
    let held : All (λ o. is_exposed s.0 o ≡ false) (hold_rows hs s).0.outputs =
      subst (λ os. All (λ o. is_exposed s.0 o ≡ false) os) (sym (outputs-hold_rows hs s))
        (All-through s.0 hs s.0.outputs (Covered-rows_to_hold s.0 s.0.outputs)) in
    All-map (λ o. is_exposed s.0 o ≡ false) (λ o. is_exposed (hold_rows hs s).0 o ≡ false)
      (λ o h.
        ap (λ t. is_selectable o && is_some t) (txid_to_hold-hold_rows hs s o.transaction_id) ∙ h)
      (hold_rows hs s).0.outputs held

-- After a run of the guard, whatever it released and whatever `reserve_inputs` did, no output that the
-- toolbox could select is of a transaction whose last word is the immediate hint.
pub run-quiet :
    (reserve_inputs : GuardStore → GuardStore) (st : GuardStore)
    → All (λ o. is_exposed (run reserve_inputs st).0 o ≡ false) (run reserve_inputs st).0.outputs
unfolding run
run-quiet reserve_inputs st =
    let start = reserve_inputs st in
    hold_rows-quiet (settle_all (held_txids start.holds) (start, quiet_report))
