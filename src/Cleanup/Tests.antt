-- ===== src/Cleanup/Tests.antt =====
-- The clean-up's theorems at a wallet with one transaction that nothing knows.
use bsv_wallet_cli.Prelude.{ℕ, ◌≡◌, none, some, true, false, [], ◌∷◌, any, Pairs}
use bsv_wallet_cli.Prelude.Text.{Text, codes}
use bsv_wallet_cli.BroadcastVerify.Indexes.{index_absent}
use bsv_wallet_cli.BroadcastVerify.Rounds.{PresenceReport, verdict_rejected, provider_network}
use bsv_wallet_cli.Cleanup.Store.{Wallet}
use bsv_wallet_cli.Cleanup.Decide.{InputSpend, unspent}
use bsv_wallet_cli.Cleanup.Run.{reconcile_with}
use bsv_wallet_cli.Cleanup.Doomed.{Doomed}
use bsv_wallet_cli.Cleanup.Failed.{FailedOnly, reconcile_with-FailedOnly}
use bsv_wallet_cli.Cleanup.Released.{ReleasedOnly}
use bsv_wallet_cli.Cleanup.Vouched.{Unspent, reconcile_with-ReleasedOnly}
use bsv_wallet_cli.Cleanup.Phantoms.{is_phantom_of, dead_of_pass, reconcile_with-no_phantoms}

-- Transaction 7 spends output 1 of transaction 3, and output 2 is its change.
abbrev wallet : Wallet
wallet = record {
  outputs =
      record {
        output_id = 1;
        transaction_id = 3;
        vout = 0;
        satoshis = 5000;
        spendable = false;
        spent_by = some 7;
        basket_id = some 1;
      }
      ∷ record {
        output_id = 2;
        transaction_id = 7;
        vout = 0;
        satoshis = 4000;
        spendable = true;
        spent_by = none;
        basket_id = some 1;
      }
      ∷ [];
  transactions =
      record {
        transaction_id = 3;
        txid = codes "aa";
        reference = codes "r3";
        status = codes "completed";
        age_seconds = 9000;
        age_minutes = 150;
      }
      ∷ record {
        transaction_id = 7;
        txid = codes "bb";
        reference = codes "r7";
        status = codes "unproven";
        age_seconds = 7200;
        age_minutes = 120;
      }
      ∷ [];
  baskets = record { basket_id = 1; name = codes "default"; is_deleted = false } ∷ [];
  requests =
      record { proven_tx_req_id = 1; txid = codes "bb"; status = codes "unsent"; attempts = 2 }
      ∷ [];
  broadcast_seen = none;
  tracker_states = none;
}

abbrev rejected : Text → PresenceReport
rejected txid = record {
  verification = verdict_rejected;
  evidence = none;
  evidence_provider = provider_network;
  chain_index = index_absent;
  chain_index_by = none;
  broadcaster_fatal = false;
  network_absent = true;
}

abbrev all_unspent : Text → ℕ → InputSpend
all_unspent txid vout = unspent

reconcile_with-FailedOnly_example :
    Pairs
      (FailedOnly (Doomed rejected all_unspent wallet 0))
      wallet.transactions
      (reconcile_with rejected all_unspent 0 30 true wallet wallet).0.transactions
reconcile_with-FailedOnly_example =
    reconcile_with-FailedOnly rejected all_unspent 0 30 wallet wallet true

reconcile_with-ReleasedOnly_example :
    Pairs
      (ReleasedOnly (Unspent rejected all_unspent 0 30 wallet wallet))
      wallet.outputs
      (reconcile_with rejected all_unspent 0 30 true wallet wallet).0.outputs
reconcile_with-ReleasedOnly_example =
    reconcile_with-ReleasedOnly rejected all_unspent 0 30 wallet wallet true

reconcile_with-no_phantoms_example :
    any
      (is_phantom_of (dead_of_pass rejected all_unspent 0 30 wallet wallet))
      (reconcile_with rejected all_unspent 0 30 true wallet wallet).0.outputs
    ≡ false
reconcile_with-no_phantoms_example =
    reconcile_with-no_phantoms rejected all_unspent 0 30 wallet wallet
