-- ===== src/FollowUp/Tests.antt =====
-- The theorem on a handled request over a store that counts what was done to it.
use bsv_wallet_cli.Prelude.{
  ltb, if◌then◌else◌, ℕ, suc, ◌+◌, ◌≡◌, refl, none, some, true, false, [], ◌∷◌,
}
use bsv_wallet_cli.Prelude.Text.{codes, text_eq}
use bsv_wallet_cli.Guard.Retire.{
  Records, broadcaster_took, req_status, is_one_of, taken_req_statuses, has_completed, in_memory,
  in_tracker,
}
use bsv_wallet_cli.BroadcastVerify.Indexes.{index_absent}
use bsv_wallet_cli.BroadcastVerify.Rounds.{PresenceReport, verdict_rejected, provider_network}
use bsv_wallet_cli.FollowUp.{
  CreateActionResult, handle_broadcast, tx_status, status_of, entry_in, disposition, send_sending,
  ambiguous_broadcast, Toolbox, follow_up, apply_presence_report, record_evidence, on_verdict, took,
  retire_untaken, retire_rejected_broadcast,
}
use bsv_wallet_cli.FollowUp.Requests.{IsHandled, handle_broadcast_lem}

abbrev records : Records
records = record {
  reqs = record { txid = codes "aa"; status = codes "sending" } ∷ [];
  transactions = [];
  broadcast_seen = none;
  tracker_states = none;
}

-- A retire adds 100, any other write 1.
abbrev counter : Toolbox ℕ
counter = record {
  records = λ w. some records;
  transactions = λ w. some (
      record {
        txid = some (codes "aa");
        reference = codes "r";
        status = if ltb w 100 then codes "unproven" else codes "failed";
      }
      ∷ []);
  mark_seen_by = λ t p w. suc w;
  record_mined = λ t p w. suc w;
  record_seen_many = λ p ts w. suc w;
  retire_undeliverable_txid = λ t w. (w + 100, none);
}

abbrev rejected : PresenceReport
rejected = record {
  verification = verdict_rejected;
  evidence = none;
  evidence_provider = provider_network;
  chain_index = index_absent;
  chain_index_by = none;
  broadcaster_fatal = false;
  network_absent = true;
}

abbrev sent : CreateActionResult
sent = record {
  txid = some (codes "aa");
  has_signable_transaction = false;
  send_with_results = some ((codes "aa", send_sending) ∷ []);
}

-- A post that was left at `sending` is ambiguous, and its transaction is retired.
ambiguous_result : disposition sent false false ≡ ambiguous_broadcast
unfolding disposition entry_in text_eq
ambiguous_result = refl

retired_once : (follow_up counter ambiguous_broadcast (codes "aa") [] rejected 0).world ≡ 100
unfolding follow_up apply_presence_report record_evidence on_verdict took retire_untaken
    retire_rejected_broadcast broadcaster_took req_status is_one_of taken_req_statuses has_completed
    in_memory in_tracker text_eq
retired_once = refl

fails_once : (handle_broadcast counter sent false false [] rejected 0).fails ≡ true
unfolding handle_broadcast tx_status status_of disposition entry_in follow_up apply_presence_report
    record_evidence on_verdict took retire_untaken retire_rejected_broadcast broadcaster_took
    req_status is_one_of taken_req_statuses has_completed in_memory in_tracker text_eq
fails_once = refl

handle_broadcast_lem_example :
    IsHandled counter sent
      (codes "aa")
      refl
      false
      false
      (codes "bb" ∷ [])
      rejected
      0
      5
      (handle_broadcast counter sent false false (codes "bb" ∷ []) rejected 0)
handle_broadcast_lem_example =
    handle_broadcast_lem counter sent (codes "aa") refl false false (codes "bb" ∷ []) rejected 0 5
