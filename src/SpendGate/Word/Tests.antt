-- ===== src/SpendGate/Word/Tests.antt =====
-- The word and its outpoints at concrete texts.
use bsv_wallet_cli.Prelude.{◌≡◌, refl, some, true, List, [], ◌∷◌, ok, any, ◌⊎◌, arith}
use bsv_wallet_cli.Prelude.Text.{Text, codes, text_eq, is_hex_digit, to_ascii_lowercase}
use bsv_wallet_cli.SpendGate.Outpoint.{parse_outpoint}
use bsv_wallet_cli.SpendGate.Outpoint.Laws.{
  parse_outpoint-print, parse_outpoint-IsOutpoint, print_outpoint, IsOutpoint,
}
use bsv_wallet_cli.SpendGate.Word.{
  received, Coin, reaches, scoped, coin_eq, from_cli, from_json, allow_pending_received,
  allow_pending, parse_coins,
}
use bsv_wallet_cli.SpendGate.Word.Scope.{reaches-scoped}
use bsv_wallet_cli.SpendGate.Word.Doors.{from_json-eq-from_cli, from_cli-reaches, scope_request}

abbrev txid : Text
txid = codes "00000000000000000000000000000000000000000000000000000000000000Ab"

parse_outpoint-print_example :
    parse_outpoint (print_outpoint txid b':' 7) ≡ ok (to_ascii_lowercase txid, 7)
unfolding is_hex_digit
parse_outpoint-print_example = parse_outpoint-print txid b':' 7 refl refl (omega arith)

parse_outpoint-IsOutpoint_example : IsOutpoint (to_ascii_lowercase txid, 7)
unfolding is_hex_digit
parse_outpoint-IsOutpoint_example =
    parse_outpoint-IsOutpoint (print_outpoint txid b':' 7) (to_ascii_lowercase txid, 7)
      (parse_outpoint-print txid b':' 7 refl refl (omega arith))

abbrev two_coins : List Coin
two_coins = (codes "cd", 2) ∷ (codes "ab", 0) ∷ []

reaches-scoped_example :
    reaches (scoped two_coins) (codes "ab") 0 ≡ any (λ c. coin_eq c (codes "ab", 0)) two_coins
reaches-scoped_example = reaches-scoped two_coins (codes "ab") 0

from_json-eq-from_cli_example :
    from_json (some (scope_request (print_outpoint txid b'.' 3 ∷ codes "zz" ∷ [])))
    ≡ from_cli (some allow_pending_received) (print_outpoint txid b'.' 3 ∷ codes "zz" ∷ [])
from_json-eq-from_cli_example = from_json-eq-from_cli (print_outpoint txid b'.' 3) (codes "zz" ∷ [])

from_cli_received : from_cli (some allow_pending_received) [] ≡ ok received
unfolding from_cli allow_pending text_eq
from_cli_received = refl

abbrev no_coins : List Text
no_coins = []

from_cli-reaches_example :
    (allow_pending (some allow_pending_received) ≡ true)
    × ((no_coins ≡ [])
        ⊎ ((named : List Coin) × (parse_coins no_coins ≡ ok named)
            × (any (λ c. coin_eq c (txid, 1)) named ≡ true)))
unfolding reaches
from_cli-reaches_example =
    from_cli-reaches (some allow_pending_received) [] received txid 1 from_cli_received refl
