-- ===== src/Tracker/Tests.antt =====
-- The tracker's theorems with a small state machine, over a stored row whose proof is checked.
use bsv_wallet_cli.Prelude.{
  ℕ, ◌≡◌, refl, ◌≤◌, max, Option, none, some, true, false, [], ◌∷◌, ok, err,
}
use bsv_wallet_cli.Prelude.Text.{Text, codes, to_ascii_lowercase, lower}
use bsv_wallet_cli.SpendGate.Hold.{Word, unknown, mined, GateOptions, made}
use bsv_wallet_cli.SpendGate.Word.{off}
use bsv_wallet_cli.SpendGate.Store.{Candidate}
use bsv_wallet_cli.SpendGate.Assess.{Assessment, assess_inner}
use bsv_wallet_cli.SpendGate.Assess.Full.{Yields, OnlyCapped}
use bsv_wallet_cli.Tracker.Headers.{
  Headers, HeaderSnapshot, HeaderService, new_branch, old_branch, snapshot_headers, snapshot_tip,
}
use bsv_wallet_cli.Tracker.Rows.{
  CheckError, Input, proof_evidence, Machine, TrackedRow, replay, chain_events, deactivated,
  row_proof,
}
use bsv_wallet_cli.Tracker.Creators.{
  default_spend_depth, read_row, read_creators, verdict, kept_fault, readme_spend_guard, stepped,
  tracks_mined, is_mined, and_deep, deep_enough, deep_if, is_deep, depth_under, under_split,
  depth_of, says_yes, first_fault, reading,
}
use bsv_wallet_cli.Tracker.Offered.{read_row-offered}
use bsv_wallet_cli.Tracker.Listed.{assess_inner-read_creators}

-- A machine whose word is mined once it was given a proof, at height 800.
step_word : Headers → Input ℕ ℕ ℕ ℕ → Word → Word × Option CheckError
step_word headers (proof_evidence p) w = (mined, none)
step_word headers i w = (w, none)

abbrev machine : Machine Word ℕ ℕ ℕ ℕ
machine = record {
  new_state = λ txid. unknown;
  step = step_word;
  word = λ w. w;
  height = λ w. some 800;
  mined_height = λ w. 800;
  is_suspect = λ w. false;
  proof_of = λ txid hex. ok 800;
  height_of = λ p. p;
  decode_envelope = λ json. none;
  deactivated_headers = λ e. [];
  path_hex = λ bytes. some bytes;
  error_text = λ e. codes "fault";
}

abbrev row : TrackedRow ℕ ℕ
row = record {
  txid = codes "aa";
  built = true;
  hints = 1 ∷ [];
  bump = some (codes "00");
  chain = [];
  verdict = none;
}

abbrev snapshot : HeaderSnapshot
snapshot = record { tip = ok (805, codes "ff"); headers = [] }

row_offered : (read_row machine snapshot (some 801) 6 row).offered ≡ true
unfolding read_row replay verdict kept_fault readme_spend_guard stepped tracks_mined is_mined
    and_deep deep_enough deep_if is_deep depth_under under_split depth_of says_yes first_fault
    reading step_word chain_events deactivated row_proof new_branch old_branch snapshot_headers
    snapshot_tip
row_offered = refl

read_row-offered_example :
    ((read_row machine snapshot (some 801) 6 row).word ≡ mined)
    × ((read_row machine snapshot (some 801) 6 row).suspect ≡ false)
    × ((read_row machine snapshot (some 801) 6 row).fault ≡ none)
    × (max 6 default_spend_depth ≤ (read_row machine snapshot (some 801) 6 row).depth)
read_row-offered_example = read_row-offered machine snapshot (some 801) 6 row row_offered

abbrev service : HeaderService
service = record {
  chain_tip = ok (805, codes "ff");
  header_for_height = λ height. err (codes "down");
}

abbrev options : GateOptions
options = record { spend_depth = 6; own_change = false; allow_pending = off }

abbrev coin : Candidate
coin = record {
  output_id = 1;
  txid = codes "aa";
  vout = 0;
  satoshis = 5000;
  origin = made;
  age_minutes = 3;
  proof = none;
  frozen = false;
}

assess_inner-read_creators_example :
    Yields {E = Text}
      (λ (r : Assessment × ℕ). OnlyCapped r.0)
      (assess_inner
        (λ n batch. ok (read_creators machine (row ∷ []) [] service 6 batch))
        options
        none
        true
        (coin ∷ [])
        0)
assess_inner-read_creators_example =
    assess_inner-read_creators machine (λ n. row ∷ []) (λ n. []) (λ n. service) options true
      (coin ∷ []) 0 (unfold to_ascii_lowercase lower in refl, tt)
