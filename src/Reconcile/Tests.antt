-- ===== src/Reconcile/Tests.antt =====
-- The reconciler's theorem over a store that keeps the list of what it was told to retire.
use bsv_wallet_cli.Prelude.{ℕ, ◌≡◌, refl, none, some, true, false, List, [], ◌∷◌, if◌then◌else◌}
use bsv_wallet_cli.Prelude.Text.{Text, codes, text_eq}
use bsv_wallet_cli.Guard.Retire.{
  Records, broadcaster_took, req_status, is_one_of, taken_req_statuses,
}
use bsv_wallet_cli.BroadcastVerify.Rounds.{PresenceReport, verdict_rejected, from_verification}
use bsv_wallet_cli.Reconcile.Tables.{Tables, needs_probe, has_status, status_seen}
use bsv_wallet_cli.Reconcile.Retire.{
  Toolbox, PoisonReport, PoisonOutcome, poison_retired, poison_alive, ran, retire_never_announced,
  retire_unless, retire_if, taken_of, dry_run, is_retired,
}
use bsv_wallet_cli.Reconcile.Pass.{ReconcileOptions}
use bsv_wallet_cli.Reconcile.Sweeps.{Steps}

abbrev tables : Tables
tables = record {
  transactions =
      record {
        transaction_id = 1;
        txid = some (codes "aa");
        status = codes "failed";
        age_seconds = 9000;
        age_minutes = 150;
      }
      ∷ record {
        transaction_id = 2;
        txid = some (codes "bb");
        status = codes "unproven";
        age_seconds = 8000;
        age_minutes = 133;
      }
      ∷ [];
  outputs = record { transaction_id = 1; spent_by = some 2 } ∷ [];
  memory = [];
}

abbrev records : Records
records = record { reqs = []; transactions = []; broadcast_seen = none; tracker_states = none }

abbrev log : Toolbox (List Text) Unit
log = record {
  tables = λ w. tables;
  records = λ w. records;
  retire_poisoned_chain_from = λ origin execute absence w. (
    origin ∷ w,
    record {
      origin = origin;
      climbed = [];
      chain = [];
      outcome = poison_retired;
      retirable = codes "bb" ∷ [];
    },
  );
  mark_seen_by = λ t p w. w;
  record_broadcast_status = λ t p s w. w;
  record_seen_many = λ p ts w. w;
  recheck_locked_inputs = λ most execute w. (w, tt);
  settle_proven = λ w. w;
}

abbrev rejects : ℕ → Text → PresenceReport
rejects n txid = from_verification verdict_rejected

abbrev options : ReconcileOptions
options = record {
  execute = true;
  absence_minutes = 30;
  max_probes = 10;
  max_locked_checks = 20;
  max_age_hours = none;
}

-- Past the threshold only fresh evidence of the chain index exempts from a probe.
probes_old :
    needs_probe 600 40 30 (
      record {
        txid = codes "bb";
        is_chain = false;
        ladder_status = some status_seen;
        is_network_evidence = true;
        age_seconds = 5;
      }
      ∷ [])
    ≡ true
unfolding needs_probe has_status
probes_old = refl

-- The chain, asked again, now says that the root is dead: a retire that its dry run did not foresee.
abbrev unforeseen : PoisonOutcome → Text → PoisonReport
unforeseen outcome origin = record {
  origin = origin;
  climbed = [];
  chain = [];
  outcome = outcome;
  retirable = codes "aa" ∷ [];
}

abbrev flips : Toolbox (List Text) Unit
flips = record log {
  records =
      λ w. record records { reqs = record { txid = codes "aa"; status = codes "unmined" } ∷ [] };
  retire_poisoned_chain_from = λ origin execute absence w.
      if execute
      then (origin ∷ w, unforeseen poison_retired origin)
      else (w, unforeseen poison_alive origin);
}

-- A set is retired of which a broadcaster took a transaction, as the dry run did not end as retired.
retires_taken :
    retire_never_announced flips 30 true (codes "aa") []
    ≡ (codes "aa" ∷ [], ran (unforeseen poison_retired (codes "aa")))
unfolding retire_never_announced retire_unless retire_if taken_of dry_run is_retired
retires_taken = refl

aa_is_taken : broadcaster_took (flips.records []) (codes "aa") ≡ true
unfolding broadcaster_took req_status is_one_of taken_req_statuses text_eq
aa_is_taken = refl
