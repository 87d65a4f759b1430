-- ===== src/Reconcile/Retire.antt =====
-- `retire_never_announced` and `run_sweep` of src/broadcast_reconcile.rs. The store is a `World`
-- that the toolbox's operations change; what the source reads of it itself are tables.
use bsv_wallet_cli.Prelude.{
  ℕ, Option, none, some, Bool, true, false, not, List, [], ◌∷◌, ◌++◌, if◌then◌else◌,
}
use bsv_wallet_cli.Prelude.Text.{Text}
use bsv_wallet_cli.Guard.Retire.{Records, first_taken, is_one_of}
use bsv_wallet_cli.BroadcastVerify.Rounds.{Provider}
use bsv_wallet_cli.Reconcile.Tables.{Tables, BroadcastStatus, sweep_roots, rejected_roots}

pub data PoisonOutcome : Type 0 where
  poison_retired poison_alive poison_refused poison_not_found : PoisonOutcome

-- The toolbox's report of a poisoned chain's retire. `retirable` is its `retirable_txids()`.
pub record PoisonReport : Type 0 where
  pub origin : Text
  pub climbed : List Text
  pub chain : List Text
  pub outcome : PoisonOutcome
  pub retirable : List Text

-- The toolbox's operations on the store, and what is read of it.
pub record Toolbox (World Locked : Type 0) : Type 0 where
  pub tables : World → Tables
  pub records : World → Records
  pub retire_poisoned_chain_from : Text → Bool → ℕ → World → World × PoisonReport
  pub mark_seen_by : Text → Provider → World → World
  pub record_broadcast_status : Text → Provider → BroadcastStatus → World → World
  pub record_seen_many : Provider → List Text → World → World
  pub recheck_locked_inputs : ℕ → Bool → World → World × Locked
  pub settle_proven : World → World

pub data Guarded : Type 0 where
  ran : PoisonReport → Guarded
  kept_set : List Text → Text → Guarded

unfoldable pub is_retired : PoisonOutcome → Bool
is_retired poison_retired = true
is_retired _ = false

-- The variables of the loop over the roots.
pub record Sweep : Type 0 where
  pub covered : List Text
  pub retired : List PoisonReport
  pub kept_announced : List (Text × Text)

unfoldable pub enter_guarded : Text → Guarded → Sweep → Sweep
enter_guarded root (ran p) s = record s {
  covered = s.covered ++ p.origin ∷ (p.climbed ++ p.chain);
  retired = s.retired ++ p ∷ [];
}
enter_guarded root (kept_set members taken) s = record s {
  covered = s.covered ++ members;
  kept_announced = s.kept_announced ++ (root, taken) ∷ [];
}

abbrev pub no_sweep : Sweep
no_sweep = record { covered = []; retired = []; kept_announced = [] }

module _ {World Locked : Type 0} (toolbox : Toolbox World Locked) (absence_minutes : ℕ) where
  unfoldable pub dry_run : Text → World → World × PoisonReport
  dry_run origin w = toolbox.retire_poisoned_chain_from origin false absence_minutes w

  ran_of : World × PoisonReport → World × Guarded
  ran_of (w, p) = (w, ran p)

  unfoldable pub retire_if : Bool → Text → World × PoisonReport → World × Guarded
  unfolding ran_of
  retire_if execute origin (w, dry) =
      if not execute
      then (w, ran dry)
      else ran_of (toolbox.retire_poisoned_chain_from origin true absence_minutes w)

  unfoldable pub retire_unless : Option Text → Bool → Text → World × PoisonReport → World × Guarded
  retire_unless (some taken) execute origin dry =
      (dry.0, kept_set (dry.1.retirable ++ origin ∷ []) taken)
  retire_unless none execute origin dry = retire_if execute origin dry

  -- The set is learned from a dry run, and asked of the wallet's records.
  unfoldable pub taken_of : World × PoisonReport → Option Text
  taken_of (w, dry) =
      if is_retired dry.outcome then first_taken (toolbox.records w) dry.retirable else none

  unfoldable pub retire_never_announced : Bool → Text → World → World × Guarded
  retire_never_announced execute origin w =
      let dry = dry_run origin w in retire_unless (taken_of dry) execute origin dry

  visit_guarded : Text → World × Guarded → Sweep → World × Sweep
  visit_guarded root (w, g) s = (w, enter_guarded root g s)

  unfoldable pub sweep_root : Bool → Text → World × Sweep → World × Sweep
  unfolding visit_guarded
  sweep_root execute root (w, s) =
      if is_one_of s.covered root
      then (w, s)
      else visit_guarded root (retire_never_announced execute root w) s

  unfoldable pub sweep_all : Bool → List Text → World × Sweep → World × Sweep
  sweep_all execute [] s = s
  sweep_all execute (root ∷ roots) s = sweep_all execute roots (sweep_root execute root s)

  unfoldable pub sweep_of : Bool → World → World × Sweep
  sweep_of execute w =
      sweep_all execute (sweep_roots (toolbox.tables w) ++ rejected_roots (toolbox.tables w))
        (w, no_sweep)

  with_locked : World × Locked → Sweep → World × Sweep × Locked
  with_locked (w, l) s = (w, s, l)

  -- `DEFAULT_MAX_LOCKED_CHECKS`.
  abbrev pub default_max_locked_checks : ℕ
  default_max_locked_checks = 20

  unfoldable pub run_sweep : Bool → World → World × Sweep × Locked
  unfolding with_locked
  run_sweep execute w =
      let settled = if execute then toolbox.settle_proven w else w in
      let swept = sweep_of execute settled in
      with_locked (toolbox.recheck_locked_inputs default_max_locked_checks execute swept.0) swept.1
