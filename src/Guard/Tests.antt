-- ===== src/Guard/Tests.antt =====
-- The guards' theorems at wallets with a request that waits and a transaction that is seen.
use bsv_wallet_cli.Prelude.{refl, ◌≡◌, Option, none, some, true, false, [], ◌∷◌, All, ◌↔◌}
use bsv_wallet_cli.Prelude.Text.{Text, codes, text_eq}
use bsv_wallet_cli.Guard.Retire.{
  Records, PostWord, req_status, broadcaster_took, post_word, waiting_statuses, is_one_of,
  taken_req_statuses, taken_memory_statuses, has_completed, in_memory, in_tracker,
}
use bsv_wallet_cli.Guard.Retire.Took.{Took}
use bsv_wallet_cli.Guard.Retire.Words.{Waits, post_word_iff}
use bsv_wallet_cli.Guard.Spend.{GuardStore, run}
use bsv_wallet_cli.Guard.Spend.Quiet.{is_exposed, run-quiet}

abbrev records : Records
records = record {
  reqs = record { txid = codes "aa"; status = codes "unsent" } ∷ [];
  transactions = [];
  broadcast_seen = some (record { txid = codes "bb"; word = codes "seen" } ∷ []);
  tracker_states = none;
}

abbrev no_hint : Text → Option Text
no_hint txid = none

abbrev built : PostWord
built = record { request = codes "unsent"; hint = none }

waits_built : post_word records no_hint true (codes "aa") ≡ some built
unfolding post_word waiting_statuses broadcaster_took text_eq req_status is_one_of
    taken_req_statuses taken_memory_statuses has_completed in_memory in_tracker
waits_built = refl

post_word_iff_example : (post_word records no_hint true (codes "aa") ≡ some built) ↔ (
    (true ≡ true)
    × Waits records (codes "aa") (codes "unsent")
    × (built.hint ≡ no_hint (codes "aa"))
    × ¬ (Took records (codes "aa")))
post_word_iff_example = post_word_iff records no_hint true (codes "aa") built

-- A coin of a transaction that no broadcaster took, and one that a status source holds now.
abbrev guarded : GuardStore
guarded = record {
  outputs =
      record { output_id = 1; transaction_id = 1; spendable = true; is_spent = false }
      ∷ record { output_id = 2; transaction_id = 2; spendable = false; is_spent = false }
      ∷ [];
  transactions =
      record { transaction_id = 1; txid = some (codes "aa"); status = codes "unproven" }
      ∷ record { transaction_id = 2; txid = some (codes "bb"); status = codes "unproven" }
      ∷ [];
  requests =
      record { txid = codes "aa"; status = codes "unsent"; hint = true }
      ∷ record { txid = codes "bb"; status = codes "unmined"; hint = true }
      ∷ [];
  holds = record { output_id = 2; txid = codes "bb" } ∷ [];
}

abbrev reserves_nothing : GuardStore → GuardStore
reserves_nothing st = st

run-quiet_example :
    All
      (λ o. is_exposed (run reserves_nothing guarded).0 o ≡ false)
      (run reserves_nothing guarded).0.outputs
run-quiet_example = run-quiet reserves_nothing guarded
