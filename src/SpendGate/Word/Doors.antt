-- ===== src/SpendGate/Word/Doors.antt =====
-- The two doors that name the word, a request's and a command's.
use bsv_wallet_cli.Prelude.{
  ℕ, ◌≡◌, refl, true, Option, some, List, [], ◌∷◌, Result, ok, err, arith, any, Bool-cases, inl,
  inr, ◌⊎◌, ◌>>=◌,
}
use bsv_wallet_cli.Prelude.Text.{Text, text_eq_refl}
use bsv_wallet_cli.SpendGate.Word.{
  AllowPending, Coin, Json, Items, WordError, string, array, object, nil, cons, end, field, coin_eq,
  reaches, scoped, item_coins, from_json, from_cli, parse_coins, allow_pending,
  allow_pending_received,
}
use bsv_wallet_cli.SpendGate.Word.Scope.{reaches-scoped}

-- The list of a request's scope, from the texts of its outpoints.
abbrev pub items_of : List Text → Items
items_of [] = nil
items_of (c ∷ cs) = cons (string c) (items_of cs)

abbrev pub scope_request : List Text → Json
scope_request coins = object (field allow_pending_received (array (items_of coins)) end)

item_coins-items_of : (coins : List Text) → item_coins (items_of coins) ≡ parse_coins coins
unfolding item_coins parse_coins
item_coins-items_of [] = refl
item_coins-items_of (c ∷ cs) = rw (item_coins-items_of cs)

-- A request that names one coin or more is read as the command line with these coins: the same
-- word, or the same error.
pub from_json-eq-from_cli :
    (c : Text) (cs : List Text)
    → from_json (some (scope_request (c ∷ cs))) ≡ from_cli (some allow_pending_received) (c ∷ cs)
unfolding from_json from_cli allow_pending
from_json-eq-from_cli c cs =
    rw (text_eq_refl allow_pending_received) (rw (item_coins-items_of (c ∷ cs)))

abbrev scoped_result : Result WordError (List Coin) → Result WordError AllowPending
scoped_result r = do cs ← r; ok (scoped cs)

scoped_result-reaches :
    (r : Result WordError (List Coin)) (w : AllowPending) (txid : Text) (vout : ℕ)
    → scoped_result r ≡ ok w
    → reaches w txid vout ≡ true
    → (named : List Coin) × (r ≡ ok named) × (any (λ c. coin_eq c (txid, vout)) named ≡ true)
scoped_result-reaches (ok cs) w txid vout h r =
    (cs, refl, ground (arith, reaches-scoped cs txid vout))
scoped_result-reaches (err e) w txid vout h r = cc

-- From a command, a word that reaches a coin was given as `received`, and the coin is one of those
-- that `--coin` names, unless it names none.
pub from_cli-reaches :
    (word : Option Text) (coins : List Text) (w : AllowPending) (txid : Text) (vout : ℕ)
    → from_cli word coins ≡ ok w
    → reaches w txid vout ≡ true
    → (allow_pending word ≡ true)
      × ((coins ≡ [])
          ⊎ ((named : List Coin) × (parse_coins coins ≡ ok named)
              × (any (λ c. coin_eq c (txid, vout)) named ≡ true)))
unfolding from_cli
from_cli-reaches word [] w txid vout h r = elim (Bool-cases (allow_pending word)) [
  | inl a ↦ (a, inl refl)
  | inr n ↦ absurd (unfold reaches in ground arith)
]
from_cli-reaches word (c ∷ cs) w txid vout h r = elim (Bool-cases (allow_pending word)) [
  | inl a ↦ (a, inr (scoped_result-reaches (parse_coins (c ∷ cs)) w txid vout (rw a at h) r))
  | inr n ↦ absurd (cc (rw n at h))
]
