-- ===== src/SpendGate/Word.antt =====
-- The word at the door of src/spend_gate.rs: `AllowPending`, what reaches a coin under it, and how
-- a request's JSON and a command's flags name it. A JSON value is that of serde_json,
-- a number its literal.
pub mod Scope
pub mod Doors
mod Tests
use bsv_wallet_cli.Prelude.{
  ℕ, suc, Option, none, some, Bool, true, false, ◌&&◌, ◌||◌, not, List, [], ◌∷◌, Result, ok, err,
  ◌>>=◌, ◌==◌, ltb, if◌then◌else◌, any, is_empty, String,
}
use bsv_wallet_cli.Prelude.Text.{Text, codes, text_eq}
use bsv_wallet_cli.SpendGate.Outpoint.{OutpointError, parse_outpoint}

abbrev pub Coin : Type 0
Coin = Text × ℕ

pub data AllowPending : Type 0 where
  off : AllowPending
  received : AllowPending
  received_only : List Coin → AllowPending

unfoldable pub is_on : AllowPending → Bool
is_on off = false
is_on _ = true

unfoldable pub coin_eq : Coin → Coin → Bool
coin_eq (t, v) (u, w) = text_eq t u && (v == w)

unfoldable pub reaches : AllowPending → Text → ℕ → Bool
reaches off txid vout = false
reaches received txid vout = true
reaches (received_only coins) txid vout = any (λ c. coin_eq c (txid, vout)) coins

unfoldable pub named : AllowPending → List Coin
named (received_only coins) = coins
named _ = []

-- The order of `String` and of a pair, by which `sort` runs.
pub text_ltb : Text → Text → Bool
text_ltb s [] = false
text_ltb [] (b ∷ t) = true
text_ltb (a ∷ s) (b ∷ t) = let rest = text_ltb s t in if a == b then rest else ltb a b

pub coin_ltb : Coin → Coin → Bool
unfolding text_ltb
coin_ltb (t, v) (u, w) = if text_eq t u then ltb v w else text_ltb t u

insert_coin : Coin → List Coin → List Coin
insert_coin c [] = c ∷ []
insert_coin c (d ∷ ds) =
    let rest = insert_coin c ds in if coin_ltb d c then d ∷ rest else c ∷ d ∷ ds

sort : List Coin → List Coin
unfolding insert_coin coin_ltb
sort [] = []
sort (c ∷ cs) = insert_coin c (sort cs)

-- `Vec::dedup`: of neighbours that are equal the first stays.
keep_first : Coin → List Coin → List Coin
keep_first c [] = c ∷ []
keep_first c (d ∷ ds) = if coin_eq c d then c ∷ ds else c ∷ d ∷ ds

dedup : List Coin → List Coin
unfolding keep_first
dedup [] = []
dedup (c ∷ cs) = keep_first c (dedup cs)

only_if_some : List Coin → AllowPending
only_if_some [] = off
only_if_some (c ∷ cs) = received_only (c ∷ cs)

pub scoped : List Coin → AllowPending
unfolding sort dedup only_if_some
scoped coins = only_if_some (dedup (sort coins))

abbrev pub allow_pending_received : Text
allow_pending_received = codes "received"

unfoldable pub allow_pending : Option Text → Bool
allow_pending none = false
allow_pending (some word) = text_eq word allow_pending_received

-- A caller's error; `shape` is that of an object which is not `{"received": ["txid:vout", ...]}`.
pub data WordError : Type 0 where
  shape : WordError
  coin_without_word : WordError
  outpoint : OutpointError → WordError

mutual
  pub data Json : Type 0 where
    null : Json
    bool : Bool → Json
    number : Text → Json
    string : Text → Json
    array : Items → Json
    object : Fields → Json

  pub data Items : Type 0 where
    nil : Items
    cons : Json → Items → Items

  pub data Fields : Type 0 where
    end : Fields
    field : Text → Json → Fields → Fields

lift_outpoint : Result OutpointError Coin → Result WordError Coin
lift_outpoint (ok c) = ok c
lift_outpoint (err e) = err (outpoint e)

-- The outpoint that an item of the list writes.
item_coin : Json → Result WordError Coin
unfolding lift_outpoint
item_coin (string text) = lift_outpoint (parse_outpoint text)
item_coin _ = err shape

pub item_coins : Items → Result WordError (List Coin)
unfolding item_coin
item_coins nil = ok []
item_coins (cons item items) = do c ← item_coin item; cs ← item_coins items; ok (c ∷ cs)

scope_of : Json → Result WordError AllowPending
scope_of (array items) = do coins ← item_coins items; ok (scoped coins)
scope_of _ = err shape

-- The keys of a map are distinct, so one field is the whole of an object of length 1.
from_object : Fields → Result WordError AllowPending
unfolding scope_of
from_object (field key value end) =
    if text_eq key allow_pending_received then scope_of value else err shape
from_object _ = err shape

unfoldable pub from_json : Option Json → Result WordError AllowPending
unfolding from_object
from_json none = ok off
from_json (some (string word)) = ok (if allow_pending (some word) then received else off)
from_json (some (object fields)) = from_object fields
from_json (some _) = ok off

pub parse_coins : List Text → Result WordError (List Coin)
unfolding lift_outpoint
parse_coins [] = ok []
parse_coins (c ∷ cs) = do
  coin ← lift_outpoint (parse_outpoint c)
  rest ← parse_coins cs
  ok (coin ∷ rest)

unfoldable pub from_cli : Option Text → List Text → Result WordError AllowPending
from_cli word coins =
    if not (allow_pending word)
    then (if is_empty coins then ok off else err coin_without_word)
    else if is_empty coins
    then ok received
    else do cs ← parse_coins coins; ok (scoped cs)
