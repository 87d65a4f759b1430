-- ===== src/Relay/Tests.antt =====
-- The relay's theorems at a relay with two tokens.
use bsv_wallet_cli.Prelude.{◌≡◌, refl, none, some, true, [], ◌∷◌, arith}
use bsv_wallet_cli.Prelude.Text.{codes, text_eq}
use bsv_wallet_cli.Relay.{
  Relay, Headers, done, items, callback, pull_request, extract_callback_token, token_registered,
  arc_callback, pull, queue, due, serve,
}
use bsv_wallet_cli.Relay.Queue.{IsValid, serve-IsValid}
use bsv_wallet_cli.Relay.Delivery.{pull-arc_callback, due-pull_other}

abbrev bank : Relay
bank = record {
  tokens = codes "t1" ∷ codes "t2" ∷ [];
  payloads = record { id = 3; token = codes "t2"; body = codes "{}" } ∷ [];
  last_id = 4;
  admin_token = some (codes "admin");
  require_register = true;
}

bank-IsValid : IsValid bank
unfolding token_registered text_eq
bank-IsValid = record { rises = (omega arith, omega arith); registered = (refl, tt) }

abbrev headers : Headers
headers = record { authorization = none; x_callback_token = some (codes "t1") }

serve-IsValid_example :
    IsValid (serve bank (callback headers (codes "x") ∷ pull_request (codes "t1") 0 (some 5) ∷ []))
serve-IsValid_example =
    serve-IsValid bank (callback headers (codes "x") ∷ pull_request (codes "t1") 0 (some 5) ∷ [])
      bank-IsValid

pull-arc_callback_example :
    (arc_callback bank headers (codes "x") ≡ (queue bank (codes "t1") (codes "x"), done))
    × (pull (arc_callback bank headers (codes "x")).0 (codes "t1") 4 none
        ≡ (queue bank (codes "t1") (codes "x"), items ((5, codes "x") ∷ [])))
unfolding extract_callback_token token_registered text_eq
pull-arc_callback_example =
    pull-arc_callback bank headers (codes "t1") (codes "x") bank-IsValid refl refl (omega arith)

due-pull_other_example :
    due (pull bank (codes "t1") 0 (some 9)).0 (codes "t2") 0 ≡ due bank (codes "t2") 0
unfolding text_eq
due-pull_other_example = due-pull_other bank (codes "t1") (codes "t2") 0 0 (some 9) refl
