-- ===== src/SpendGate/Tests.antt =====
-- The gate's theorems at concrete stores, readings and requests.
use bsv_wallet_cli.Prelude.{
  ℕ, zero, suc, ◌+◌, ◌≡◌, refl, ap, is_some, Option, none, some, Bool, true, false, List, [], ◌∷◌,
  ◌++◌, Result, ok, err, OnOk, All, if◌then◌else◌, select, length, ◌↔◌, ◌<◌, ◌≤◌, arith,
}
use bsv_wallet_cli.Prelude.Text.{Text, codes, text_eq_refl}
use bsv_wallet_cli.SpendGate.Word.{received_only, is_on}
use bsv_wallet_cli.SpendGate.Hold.{
  made, received_payment, Word, seen, mined, CreatorReading, GateOptions, HeldCoin, hold_reason,
  service_error, headers_unavailable_prefix, completed, unproven,
}
use bsv_wallet_cli.SpendGate.Hold.Rules.{hold_reason-none_iff, Offerable}
use bsv_wallet_cli.SpendGate.Hold.Fault.{service_error-hold_reason}
use bsv_wallet_cli.SpendGate.Store.{pos, OutputRow, Store, candidates, locked}
use bsv_wallet_cli.SpendGate.Store.Spendable.{IsSpendable, candidates-IsSpendable}
use bsv_wallet_cli.SpendGate.Assess.{
  reading_of, Assessment, Creator, Readings, assess_inner, cap_offer, no_assessment,
  offered_satoshis,
}
use bsv_wallet_cli.SpendGate.Assess.Offered.{assess_inner-offers, Backed}
use bsv_wallet_cli.SpendGate.Assess.Accounts.{assess_inner-enters, entered, stands}
use bsv_wallet_cli.SpendGate.Assess.Creators.{Lists, Lists-append}
use bsv_wallet_cli.SpendGate.Assess.Full.{Yields, OnlyCapped, assess_inner-full}
use bsv_wallet_cli.SpendGate.Assess.Cap.{cap_offer_lem, Conserves}
use bsv_wallet_cli.SpendGate.Gated.{
  Moment, Args, create_action, with_rule_label, refusal, code, headers_unavailable, on_fault,
  received_pending_label, is_rule_label, or_nil,
}
use bsv_wallet_cli.SpendGate.Gated.Safety.{create_action-IsSafe, IsSafe}
use bsv_wallet_cli.SpendGate.Gated.Labels.{with_rule_label_lem, others}
use bsv_wallet_cli.SpendGate.Gated.Refusals.{create_action-Trace, Trace, code-refusal_iff}

abbrev txid : Text
txid = codes "00000000000000000000000000000000000000000000000000000000000000Ab"

abbrev options : GateOptions
options = record {
  spend_depth = 3;
  own_change = true;
  allow_pending = received_only ((txid, 1) ∷ []);
}

-- A store with one received coin of 5000 satoshis and one of the wallet's own change.
abbrev coin_row : ℕ → ℕ → ℕ → OutputRow
coin_row id tx satoshis = record {
  output_id = id;
  transaction_id = tx;
  basket_id = some 1;
  vout = 1;
  satoshis = pos satoshis;
  change = true;
  spent_by = none;
  age = some (pos 12);
}

abbrev wallet : Store
wallet = record {
  outputs = coin_row 7 1 5000 ∷ coin_row 8 2 900 ∷ [];
  transactions =
      record {
        transaction_id = 1;
        txid = some txid;
        reference = none;
        status = completed;
        is_outgoing = false;
      }
      ∷ record {
        transaction_id = 2;
        txid = some (codes "cd");
        reference = none;
        status = unproven;
        is_outgoing = true;
      }
      ∷ [];
  baskets = record { basket_id = 1; name = codes "default" } ∷ [];
  proven_txs = [];
  frozen_outpoints = [];
}

abbrev reading : Word → Bool → Option Text → CreatorReading
reading w offered fault = record {
  word = w;
  depth = 1;
  suspect = false;
  offered = offered;
  fault = fault;
  headers_fault = true;
}

abbrev all_mined : List Creator → Readings
all_mined [] = []
all_mined ((t, p) ∷ cs) = (t, reading mined true none) ∷ all_mined cs

abbrev read_mined : ℕ → List Creator → Result Unit Readings
read_mined n batch = ok (all_mined batch)

-- A door that finds the first offer too small.
abbrev door : ℕ → Args → List ℕ → Result Text ℕ
door zero args ids = err (codes "Insufficient funds: 4000 more satoshis needed")
door (suc n) args ids = ok 42

abbrev args : Args
args = record {
  inputs = [];
  outputs = 3000 ∷ 1000 ∷ [];
  labels = some (codes "rent" ∷ codes "Spend-Gate:Received-Pending " ∷ []);
  rest = [];
}

abbrev always : Moment → Store
always m = wallet

create_action-IsSafe_example :
    IsSafe read_mined door always options (create_action read_mined door always options args)
create_action-IsSafe_example = create_action-IsSafe read_mined door always options args

create_action-Trace_example :
    Trace read_mined door always options
      (with_rule_label options args)
      (create_action read_mined door always options args)
create_action-Trace_example = create_action-Trace read_mined door always options args

hold_reason-none_iff_example :
    (hold_reason (reading seen false none) received_payment txid 1 options ≡ none)
    ↔ Offerable (reading seen false none) received_payment txid 1 options
hold_reason-none_iff_example =
    hold_reason-none_iff (reading seen false none) received_payment txid 1 options

candidates-IsSpendable_example : All (IsSpendable wallet) (candidates wallet)
candidates-IsSpendable_example = candidates-IsSpendable wallet

assess_inner-offers_example :
    OnOk
      (λ (r : Assessment × ℕ). All (Backed read_mined options (IsSpendable wallet)) r.0.offered)
      (assess_inner read_mined options (some 4000) true (candidates wallet) 0)
assess_inner-offers_example =
    assess_inner-offers read_mined options (IsSpendable wallet) (some 4000) true (candidates wallet)
      0 (candidates-IsSpendable wallet)

assess_inner-enters_example :
    OnOk
      (λ (r : Assessment × ℕ). entered 7 r.0 ≡ stands 7 (candidates wallet))
      (assess_inner read_mined options (some 4000) true (candidates wallet) 0)
assess_inner-enters_example =
    assess_inner-enters read_mined options 7 (some 4000) true (candidates wallet) 0

all_mined-Lists : (batch : List Creator) → Lists (all_mined batch) batch
unfolding reading_of
all_mined-Lists [] = tt
all_mined-Lists ((t, p) ∷ cs) = (
  simp (text_eq_refl t),
  Lists-append ((t, reading mined true none) ∷ []) (all_mined cs) cs (all_mined-Lists cs),
)

assess_inner-full_example :
    Yields
      (λ (r : Assessment × ℕ). OnlyCapped r.0)
      (assess_inner read_mined options none true (candidates wallet) 0)
assess_inner-full_example =
    assess_inner-full read_mined options (λ n batch. (all_mined batch, refl, all_mined-Lists batch))
      true (candidates wallet) 0

abbrev three_offered : Assessment
three_offered = record no_assessment { offered = (1, 500) ∷ (2, 900) ∷ (3, 700) ∷ [] }

cap_offer_lem_example :
    (length (cap_offer three_offered 2).offered ≤ 2)
    × Conserves
        (cap_offer three_offered 2)
        (length three_offered.offered)
        (offered_satoshis three_offered)
cap_offer_lem_example = cap_offer_lem three_offered 2 refl

with_rule_label_lem_example :
    (select is_rule_label (or_nil (with_rule_label options args).labels)
      ≡ (if is_on options.allow_pending then received_pending_label ∷ [] else []))
    × (others (or_nil (with_rule_label options args).labels) ≡ others (or_nil args.labels))
with_rule_label_lem_example = with_rule_label_lem options args

abbrev timeout_coin : HeldCoin
timeout_coin = record {
  outpoint = codes "cd.1";
  satoshis = 900;
  word = codes "mined";
  origin = made;
  age_minutes = 12;
  reason = headers_unavailable_prefix ++ codes "timeout";
  headers_fault = true;
  output_id = 8;
}

service_error-hold_reason_example : service_error timeout_coin ≡ some (codes "timeout")
unfolding hold_reason
service_error-hold_reason_example =
    service_error-hold_reason (reading mined false (some (codes "timeout"))) made (codes "cd") 1
      options timeout_coin refl refl refl

abbrev one_on_fault : Assessment
one_on_fault = record no_assessment { held = timeout_coin ∷ [] }

abbrev empty_store : Store
empty_store = record {
  outputs = [];
  transactions = [];
  baskets = [];
  proven_txs = [];
  frozen_outpoints = [];
}

spoken : service_error timeout_coin ≡ some (codes "timeout")
unfolding hold_reason
spoken =
    service_error-hold_reason (reading mined false (some (codes "timeout"))) made (codes "cd") 1
      options timeout_coin refl refl refl

code-refusal_iff_example :
    (code (refusal empty_store one_on_fault (codes "insufficient funds") 800) ≡ headers_unavailable)
    ↔ ((0 < on_fault (one_on_fault.held ++ locked empty_store))
        × (800
            ≤ offered_satoshis one_on_fault + on_fault (one_on_fault.held ++ locked empty_store)))
unfolding locked
code-refusal_iff_example =
    code-refusal_iff empty_store one_on_fault (codes "insufficient funds") 800
      ((λ h. ap is_some spoken), tt) (omega arith)
