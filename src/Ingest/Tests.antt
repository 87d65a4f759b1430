-- ===== src/Ingest/Tests.antt =====
-- The theorems on pushed payloads at a relay with one waiting payload and a store that counts.
use bsv_wallet_cli.Prelude.{
  ◌≡◌, ◌↔◌, ok, refl, suc, ℕ, Option, none, some, if◌then◌else◌, true, false, [], ◌∷◌, arith, ◌⊎◌,
}
use bsv_wallet_cli.Prelude.Text.{Text, codes, text_eq, is_hex_digit, strip_prefix}
use bsv_wallet_cli.SpendGate.Word.{Json, string, number, object, end, field}
use bsv_wallet_cli.Relay.{Relay, Headers, token_registered}
use bsv_wallet_cli.Relay.Queue.{IsValid}
use bsv_wallet_cli.Ingest.{
  Toolbox, mined_verdict, other_verdict, proof_ingested, ingest_arc_payload, get, as_str,
  action_for, read_payload, offers_path, is_mined, arc_callback, done,
}
use bsv_wallet_cli.Ingest.Actions.{
  arc_callback-Pushed, Pushed, Stored, ingest_arc_payload-proof_iff,
}
use bsv_wallet_cli.Ingest.Poller.{Poller, ticks}
use bsv_wallet_cli.Ingest.Drained.{Drained, ticks-Drained}

abbrev text_of : Option Text → Text
text_of none = []
text_of (some t) = t

abbrev mined_body : Json
mined_body = object (
    field (codes "txid")
      (string (codes "0123456789abcdef0123456789abcdef0123456789abcdef0123456789abcdef"))
      (field (codes "txStatus") (string (codes "MINED")) (
        field (codes "status") (number (codes "200"))
          (field (codes "merklePath") (string (codes "fe")) end))))

-- An event is here the whole body.
abbrev counter : Toolbox ℕ Json
counter = record {
  event_of = λ j. some j;
  tx_status = λ j. text_of (as_str (get (codes "txStatus") j));
  extra_info = λ j. as_str (get (codes "extraInfo") j);
  merkle_path = λ j. as_str (get (codes "merklePath") j);
  apply_event = λ e w. (suc w, some (record { updated = true; reask = false }));
  is_unmined = λ x. false;
  arcade_verdict = λ t. if text_eq t (codes "MINED") then mined_verdict else other_verdict;
}

abbrev json_of : Text → Json
json_of t = mined_body

abbrev headers : Headers
headers = record { authorization = some (codes "Bearer t1"); x_callback_token = none }

stored_once :
    arc_callback counter (λ t. some mined_body) (some (codes "t1")) headers (codes "x") 0
    ≡ (1, done proof_ingested)
unfolding arc_callback ingest_arc_payload get as_str action_for read_payload offers_path is_mined
    text_eq is_hex_digit strip_prefix
stored_once = refl

arc_callback-Pushed_example :
    ((arc_callback counter (λ t. some mined_body) (some (codes "t1")) headers (codes "x") 0).0 ≡ 0)
    ⊎ Pushed counter
        (λ t. some mined_body)
        (some (codes "t1"))
        headers
        (codes "x")
        0
        (arc_callback counter (λ t. some mined_body) (some (codes "t1")) headers (codes "x") 0).0
arc_callback-Pushed_example =
    arc_callback-Pushed counter (λ t. some mined_body) (some (codes "t1")) headers (codes "x") 0

ingest_arc_payload-proof_iff_example :
    ((ingest_arc_payload counter mined_body 0).1 ≡ ok proof_ingested)
    ↔ Stored counter (read_payload counter mined_body) 0
ingest_arc_payload-proof_iff_example = ingest_arc_payload-proof_iff counter mined_body 0

abbrev queued : Relay
queued = record {
  tokens = codes "t1" ∷ [];
  payloads = record { id = 3; token = codes "t1"; body = codes "{}" } ∷ [];
  last_id = 4;
  admin_token = none;
  require_register = true;
}

queued-IsValid : IsValid queued
unfolding token_registered text_eq
queued-IsValid = record { rises = (omega arith, omega arith); registered = (refl, tt) }

abbrev idle : Poller ℕ
idle = record { last_id = 0; world = 0 }

ticks-Drained_example :
    Drained counter json_of
      (codes "t1")
      refl
      queued
      idle
      (ticks counter json_of (codes "t1") 1 (queued, idle))
unfolding token_registered text_eq
ticks-Drained_example =
    ticks-Drained counter json_of (codes "t1") refl 1 queued idle queued-IsValid refl (omega arith)
