-- ===== src/Reconcile/Steps.antt =====
-- The changes that a pass makes to the store.
use bsv_wallet_cli.Prelude.{ℕ}
use bsv_wallet_cli.Prelude.Text.{Text}
use bsv_wallet_cli.BroadcastVerify.Rounds.{PresenceReport}
use bsv_wallet_cli.Reconcile.Retire.{Toolbox}
use bsv_wallet_cli.Reconcile.Pass.{Probe, ReconcileOptions, probe_pass}
use bsv_wallet_cli.Reconcile.Roots.{IsRoot}
use bsv_wallet_cli.Reconcile.Sweeps.{Steps}

module _ {World Locked : Type 0} (toolbox : Toolbox World Locked)
    (verify : ℕ → Text → PresenceReport) (opts : ReconcileOptions) (Root : Text → Type 0) where
  abbrev Moves : World → World → Type 0
  Moves = Steps toolbox opts.absence_minutes verify Root

module _ {World Locked : Type 0} (toolbox : Toolbox World Locked)
    (verify : ℕ → Text → PresenceReport) (opts : ReconcileOptions) where
  -- The roots of a pass, by the tables before its probes and by those after them.
  abbrev pub RootOf : ℕ → World → Text → Type 0
  RootOf stale w =
      IsRoot (toolbox.tables w) (toolbox.tables (probe_pass toolbox verify opts stale w).0) verify
