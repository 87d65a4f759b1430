-- ===== src/SpendGate/Named.antt =====
-- The coins that a caller names: `assess_named` and `check_scope` of src/spend_gate.rs, with the
-- row of an outpoint that their queries fetch. The message of a scope error is a constructor for
-- each reason, with the text it quotes.
use bsv_wallet_cli.Prelude.{
  ℕ, suc, Option, none, some, Bool, true, false, ◌&&◌, ◌||◌, not, List, [], ◌∷◌, Result, ok, ◌>>=◌,
  ◌==◌, if◌then◌else◌, is_some,
}
use bsv_wallet_cli.Prelude.Text.{Text, codes, text_eq, to_ascii_lowercase}
use bsv_wallet_cli.SpendGate.Word.{Coin}
use bsv_wallet_cli.SpendGate.Hold.{
  CreatorReading, GateOptions, HeldCoin, TxStatus, hold_reason, word_label, frozen_reason,
  spent_by_reason,
}
use bsv_wallet_cli.SpendGate.Store.{
  Store, OutputRow, TransactionRow, transaction_of, in_default_basket, is_frozen,
  is_spendable_status, proof_of, origin_of, age_of, or_zero, or_empty, print_coin,
}
use bsv_wallet_cli.SpendGate.Assess.{Creator, Readings, reading_of}

-- A row of the queries: an output of ours, its transaction, and the action that consumed it.
pub record NamedRow : Type 0 where
  pub txid : Text
  pub vout : ℕ
  pub output : OutputRow
  pub transaction : TransactionRow
  pub spender : Option TransactionRow

abbrev is_named : Option Text → Text → Bool
is_named none txid = false
is_named (some t) txid = text_eq (to_ascii_lowercase t) txid

row_if : Bool → NamedRow → Option NamedRow → Option NamedRow
row_if true r rest = some r
row_if false r rest = rest

row_of : Store → Text → ℕ → OutputRow → Option TransactionRow → Option NamedRow → Option NamedRow
unfolding row_if
row_of st txid vout o none rest = rest
row_of st txid vout o (some t) rest =
    row_if (is_named t.txid txid && (o.vout == vout))
      (record {
        txid = txid;
        vout = vout;
        output = o;
        transaction = t;
        spender = elim o.spent_by [ none ↦ none | some id ↦ transaction_of st id ];
      })
      rest

rows_for : Store → Text → ℕ → List OutputRow → Option NamedRow
unfolding row_of
rows_for st txid vout [] = none
rows_for st txid vout (o ∷ os) =
    row_of st txid vout o (transaction_of st o.transaction_id) (rows_for st txid vout os)

unfoldable pub row_for : Store → Text → ℕ → Option NamedRow
unfolding rows_for
row_for st txid vout = rows_for st txid vout st.outputs

add_row : Option NamedRow → List NamedRow → List NamedRow
add_row none rs = rs
add_row (some r) rs = r ∷ rs

-- An outpoint that is not an output of ours is left to the toolbox.
unfoldable pub named_rows : Store → List Coin → List NamedRow
unfolding add_row
named_rows st [] = []
named_rows st ((txid, vout) ∷ cs) =
    add_row (row_for st (to_ascii_lowercase txid) vout) (named_rows st cs)

abbrev is_reserved : ℕ → Option ℕ → Bool
is_reserved id none = false
is_reserved id (some r) = id == r

unfoldable pub is_locked : Option ℕ → NamedRow → Bool
is_locked reserved_to r = elim r.output.spent_by [
  | none ↦ false
  | some id ↦ not (is_reserved id reserved_to)
]

unfoldable pub creators_of : Store → Option ℕ → List NamedRow → List Creator
unfolding is_locked
creators_of st reserved_to [] = []
creators_of st reserved_to (r ∷ rs) =
    let rest = creators_of st reserved_to rs in
    if not (is_frozen st r.txid r.vout) && not (is_locked reserved_to r)
    then (r.txid, proof_of st (or_empty r.transaction.txid)) ∷ rest
    else rest

abbrev status_of : Option TransactionRow → Option TxStatus
status_of none = none
status_of (some s) = some s.status

abbrev holder? : Option TransactionRow → Option Text
holder? none = none
holder? (some s) = elim s.txid [ some t ↦ some t | none ↦ s.reference ]

abbrev text_or : Text → Option Text → Text
text_or default none = default
text_or default (some t) = t

judge_read : GateOptions → NamedRow → Option CreatorReading → Text × Option Text × Bool
judge_read opts r none = (codes "unknown", some (codes "not read"), false)
judge_read opts r (some reading) = (
  word_label reading.word,
  hold_reason reading (origin_of r.transaction.is_outgoing) r.txid r.vout opts,
  reading.headers_fault,
)

judge_named : Store → GateOptions → Option ℕ → Readings → NamedRow → Text × Option Text × Bool
unfolding judge_read
judge_named st opts reserved_to readings r =
    if is_frozen st r.txid r.vout
    then (codes "frozen", some frozen_reason, false)
    else if is_locked reserved_to r
    then (
      codes "locked",
      some (spent_by_reason (text_or [] (holder? r.spender)) (status_of r.spender)),
      false,
    )
    else judge_read opts r (reading_of r.txid readings)

add_held : NamedRow → Text × Option Text × Bool → List HeldCoin → List HeldCoin
add_held r (word, none, fault) rest = rest
add_held r (word, some reason, fault) rest =
    record {
      outpoint = print_coin r.txid r.vout;
      satoshis = or_zero r.output.satoshis;
      word = word;
      origin = origin_of r.transaction.is_outgoing;
      age_minutes = age_of r.output.age;
      reason = reason;
      headers_fault = fault;
      output_id = r.output.output_id;
    }
    ∷ rest

unfoldable pub held_named :
    Store → GateOptions → Option ℕ → Readings → List NamedRow → List HeldCoin
unfolding judge_named add_held
held_named st opts reserved_to readings [] = []
held_named st opts reserved_to readings (r ∷ rs) =
    add_held r (judge_named st opts reserved_to readings r)
      (held_named st opts reserved_to readings rs)

-- With no creator to read nothing is asked.
read_if_any :
    {E : Type 0}
    → (ℕ → List Creator → Result E Readings)
    → List Creator
    → ℕ
    → Result E (Readings × ℕ)
read_if_any read [] calls = ok ([], calls)
read_if_any read (c ∷ cs) calls = do answers ← read calls (c ∷ cs); ok (answers, suc calls)

-- The named coins that are held, and the calls of `read` made by then.
unfoldable pub assess_named :
    {E : Type 0}
    → (ℕ → List Creator → Result E Readings)
    → Store
    → GateOptions
    → List Coin
    → Option ℕ
    → ℕ
    → Result E (List HeldCoin × ℕ)
unfolding read_if_any held_named
assess_named read st opts named reserved_to calls = do
  let rows = named_rows st named
  (readings, calls') ← read_if_any read (creators_of st reserved_to rows) calls
  ok (held_named st opts reserved_to readings rows, calls')

-- Why a scoped word may not name a coin.
pub data Why : Type 0 where
  not_ours own_change not_default_change : Why
  spent_by : Text → Why
  transaction_is : TxStatus → Why

why_row : Store → NamedRow → Option Why
why_row st r =
    if r.transaction.is_outgoing
    then some own_change
    else if is_some r.output.spent_by
    then some (spent_by (text_or (codes "an action of this wallet") (holder? r.spender)))
    else if not (is_spendable_status r.transaction.status)
    then some (transaction_is r.transaction.status)
    else if not (in_default_basket st r.output) || not r.output.change
    then some not_default_change
    else none

why_not : Store → Option NamedRow → Option Why
unfolding why_row
why_not st none = some not_ours
why_not st (some r) = why_row st r

pub record ScopeError : Type 0 where
  pub coin : Coin
  pub why : Why

first_wrong : Coin → Option Why → Option ScopeError → Option ScopeError
first_wrong c none rest = rest
first_wrong c (some why) rest = some (record { coin = c; why = why })

unfoldable pub check_scope : Store → List Coin → Option ScopeError
unfolding why_not first_wrong
check_scope st [] = none
check_scope st ((txid, vout) ∷ cs) =
    first_wrong (txid, vout) (why_not st (row_for st txid vout)) (check_scope st cs)
