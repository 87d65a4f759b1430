-- ===== src/Reconcile/Sweeps.antt =====
-- The steps by which a pass or a sweep may change the store, and a sweep's.
use bsv_wallet_cli.Prelude.{
  All, ◌++◌, if◌then◌else◌, ℕ, ◌≡◌, ◌≢◌, refl, arith, Option, none, some, Bool, true, false, List,
  [], ◌∷◌, inl, inr, Bool-cases,
}
use bsv_wallet_cli.Prelude.Text.{Text}
use bsv_wallet_cli.Guard.Retire.{is_one_of, first_taken}
use bsv_wallet_cli.BroadcastVerify.Probe.{NetworkEvidence, mined}
use bsv_wallet_cli.BroadcastVerify.Indexes.{index_present}
use bsv_wallet_cli.BroadcastVerify.Rounds.{
  PresenceReport, Provider, provider_chain, provider_network,
}
use bsv_wallet_cli.Reconcile.Tables.{
  status_mined, status_other, unproven_parents, sweep_roots, rejected_roots,
}
use bsv_wallet_cli.Reconcile.Retire.{
  Toolbox, PoisonReport, PoisonOutcome, poison_retired, dry_run, retire_if, retire_unless, taken_of,
  retire_never_announced, Sweep, is_retired, sweep_root, sweep_all, sweep_of, run_sweep,
}
use bsv_wallet_cli.Reconcile.Evidence.{Vouched, IsAbsent}

module _ {World Locked : Type 0} (toolbox : Toolbox World Locked) (absence_minutes : ℕ)
    (verify : ℕ → Text → PresenceReport) (Root : Text → Type 0) where
  -- The dry run says that the retire would fail transactions, of which no broadcaster took any.
  abbrev pub NoneTaken : World × PoisonReport → Type 0
  NoneTaken dry =
      (dry.1.outcome ≡ poison_retired)
      × (first_taken (toolbox.records dry.0) dry.1.retirable ≡ none)

  -- A transaction is credited only by its report's evidence and recorded as mined or absent only
  -- where its report says so; the parents of one that an index has are credited to the index. A dry
  -- run looks, locked inputs are checked again, proven replacements are settled. A retire may write
  -- only after a dry run of it, on the store that the dry run left: where that said that it would
  -- fail transactions and no broadcaster took any of them, or where it said that it would fail none.
  pub data Steps : World → World → Type 0 where
    done : {w : World} → Steps w w
    then_ : {u v w : World} → Steps u v → Steps v w → Steps u w
    marked :
        (n : ℕ) (txid : Text) (p : Provider) (e : NetworkEvidence) (w : World)
        → Vouched (verify n txid) p e
        → Steps w (toolbox.mark_seen_by txid p w)
    recorded_mined :
        (n : ℕ) (txid : Text) (p : Provider) (w : World)
        → Vouched (verify n txid) p mined
        → Steps w (toolbox.record_broadcast_status txid p status_mined w)
    recorded_absent :
        (n : ℕ) (txid : Text) (w : World)
        → IsAbsent (verify n txid)
        → Steps w (toolbox.record_broadcast_status txid provider_network status_other w)
    credited :
        (n : ℕ) (txid : Text) (e : NetworkEvidence) (w : World)
        → (verify n txid).chain_index ≡ index_present e
        → Steps w
            (toolbox.record_seen_many provider_chain (unproven_parents (toolbox.tables w) txid) w)
    rechecked :
        (most : ℕ) (execute : Bool) (w : World)
        → Steps w (toolbox.recheck_locked_inputs most execute w).0
    settled : (w : World) → Steps w (toolbox.settle_proven w)
    looked :
        (origin : Text) (w : World)
        → Root origin
        → Steps w (dry_run toolbox absence_minutes origin w).0
    retired :
        (origin : Text) (w : World)
        → Root origin
        → NoneTaken (dry_run toolbox absence_minutes origin w)
        → Steps w
            (toolbox.retire_poisoned_chain_from origin true absence_minutes
              (dry_run toolbox absence_minutes origin w).0).0
    tried_again :
        (origin : Text) (w : World)
        → Root origin
        → (dry_run toolbox absence_minutes origin w).1.outcome ≢ poison_retired
        → Steps w
            (toolbox.retire_poisoned_chain_from origin true absence_minutes
              (dry_run toolbox absence_minutes origin w).0).0

  is_retired-eq : (o : PoisonOutcome) → is_retired o ≡ true → o ≡ poison_retired
  unfolding is_retired
  is_retired-eq o h = ground arith

  not_retired : (o : PoisonOutcome) → is_retired o ≡ false → o ≢ poison_retired
  unfolding is_retired
  not_retired o h e = ground arith

  retire-Steps :
      (origin : Text) (w : World) (dry : World × PoisonReport)
      → dry_run toolbox absence_minutes origin w ≡ dry
      → Root origin
      → taken_of toolbox absence_minutes dry ≡ none
      → Steps w
          (toolbox.retire_poisoned_chain_from origin true absence_minutes
            (dry_run toolbox absence_minutes origin w).0).0
  unfolding taken_of
  retire-Steps origin w dry e root h = elim (Bool-cases (is_retired dry.1.outcome)) [
    | inl y ↦ retired origin w root (rw e (is_retired-eq dry.1.outcome y, (simp y at h)))
    | inr n ↦ tried_again origin w root (rw e (not_retired dry.1.outcome n))
  ]

  retire_unless-Steps :
      (taken : Option Text) (execute : Bool) (origin : Text) (w : World)
      → Root origin
      → taken_of toolbox absence_minutes (dry_run toolbox absence_minutes origin w) ≡ taken
      → Steps w
          (retire_unless toolbox absence_minutes taken execute origin
            (dry_run toolbox absence_minutes origin w)).0
  unfolding retire_unless retire_if
  retire_unless-Steps (some t) execute origin w root h = looked origin w root
  retire_unless-Steps none false origin w root h = looked origin w root
  retire_unless-Steps none true origin w root h =
      retire-Steps origin w (dry_run toolbox absence_minutes origin w) refl root h

  sweep_root-Steps :
      (execute : Bool) (root : Text) (s : World × Sweep)
      → Root root
      → Steps s.0 (sweep_root toolbox absence_minutes execute root s).0
  unfolding sweep_root retire_never_announced
  sweep_root-Steps execute root (w, s) r = elim (Bool-cases (is_one_of s.covered root)) [
    | inl y ↦ simp y done
    | inr n ↦ simp n (retire_unless-Steps _ execute root w r refl)
  ]

  pub sweep_all-Steps :
      (execute : Bool) (roots : List Text) (s : World × Sweep)
      → All Root roots
      → Steps s.0 (sweep_all toolbox absence_minutes execute roots s).0
  unfolding sweep_all
  sweep_all-Steps execute [] s r = done
  sweep_all-Steps execute (root ∷ roots) s r =
      then_ (sweep_root-Steps execute root s r.0) (sweep_all-Steps execute roots _ r.1)

  -- The roots of a sweep: those of the poisoned chains and those that the memory calls rejected.
  abbrev pub Swept : World → Type 0
  Swept w = All Root (sweep_roots (toolbox.tables w) ++ rejected_roots (toolbox.tables w))

  pub run_sweep-Steps :
      (execute : Bool) (w : World)
      → Swept (if execute then toolbox.settle_proven w else w)
      → Steps w (run_sweep toolbox absence_minutes execute w).0
  unfolding run_sweep sweep_of
  run_sweep-Steps false w r = then_ (sweep_all-Steps false _ _ r) (rechecked 20 false _)
  run_sweep-Steps true w r =
      then_ (settled w) (then_ (sweep_all-Steps true _ _ r) (rechecked 20 true _))
