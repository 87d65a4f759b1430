-- ===== src/SpendGate/Store.antt =====
-- The tables that src/spend_gate.rs reads, and its queries over them: `candidates` and `locked`.
-- A row's age is the query's `julianday` expression, read off the row. An id is a primary key, so
-- a join by id is the first row with that id. A signed column is an integer by its two parts.
pub mod Rows
pub mod Spendable
use bsv_wallet_cli.Prelude.{
  ℕ, Option, none, some, Bool, true, false, ◌&&◌, not, List, [], ◌∷◌, ◌++◌, ◌==◌, ltb,
  if◌then◌else◌, any, is_some,
}
use bsv_wallet_cli.Prelude.Text.{Text, codes, decimal, text_eq, to_ascii_lowercase}
use bsv_wallet_cli.SpendGate.Hold.{
  Origin, made, received_payment, TxStatus, completed, unproven, failed, HeldCoin, spent_by_reason,
}

-- An `i64` column: `negsuc n` is -(n + 1).
pub data ℤ : Type 0 where
  pos : ℕ → ℤ
  negsuc : ℕ → ℤ

-- `x.max(0) as u64`.
abbrev pub or_zero : ℤ → ℕ
or_zero (pos n) = n
or_zero (negsuc n) = 0

unfoldable pub ltb_ℤ : ℤ → ℤ → Bool
ltb_ℤ (pos a) (pos b) = ltb a b
ltb_ℤ (pos a) (negsuc b) = false
ltb_ℤ (negsuc a) (pos b) = true
ltb_ℤ (negsuc a) (negsuc b) = ltb b a

pub record OutputRow : Type 0 where
  pub output_id : ℕ
  pub transaction_id : ℕ
  pub basket_id : Option ℕ
  pub vout : ℕ
  pub satoshis : ℤ
  pub change : Bool
  pub spent_by : Option ℕ
  pub age : Option ℤ

pub record TransactionRow : Type 0 where
  pub transaction_id : ℕ
  pub txid : Option Text
  pub reference : Option Text
  pub status : TxStatus
  pub is_outgoing : Bool

pub record BasketRow : Type 0 where
  pub basket_id : ℕ
  pub name : Text

pub record ProvenRow : Type 0 where
  pub txid : Text
  pub merkle_path : Text

pub record Store : Type 0 where
  pub outputs : List OutputRow
  pub transactions : List TransactionRow
  pub baskets : List BasketRow
  pub proven_txs : List ProvenRow
  pub frozen_outpoints : List (Text × ℕ)

module _ {ℓ} {A : Type ℓ} where
  -- The first row that passes a test.
  unfoldable pub find : (A → Bool) → List A → Option A
  find p [] = none
  find p (x ∷ xs) = let rest = find p xs in elim (p x) [ true ↦ some x | false ↦ rest ]

unfoldable pub transaction_of : Store → ℕ → Option TransactionRow
unfolding find
transaction_of s id = find (λ t. t.transaction_id == id) s.transactions

abbrev names_default : Option BasketRow → Bool
names_default none = false
names_default (some b) = text_eq b.name (codes "default")

unfoldable pub in_default_basket : Store → OutputRow → Bool
unfolding find
in_default_basket s o = elim o.basket_id [
  | none ↦ false
  | some id ↦ names_default (find (λ b. b.basket_id == id) s.baskets)
]

unfoldable pub proof_of : Store → Text → Option Text
unfolding find
proof_of s txid = elim (find (λ p. text_eq p.txid txid) s.proven_txs) [
  | none ↦ none
  | some p ↦ some p.merkle_path
]

unfoldable pub is_spendable_status : TxStatus → Bool
is_spendable_status completed = true
is_spendable_status unproven = true
is_spendable_status _ = false

abbrev pub is_completed : TxStatus → Bool
is_completed completed = true
is_completed _ = false

abbrev pub origin_of : Bool → Origin
origin_of true = made
origin_of false = received_payment

abbrev pub age_of : Option ℤ → ℕ
age_of none = 0
age_of (some n) = or_zero n

pub record Candidate : Type 0 where
  pub output_id : ℕ
  pub txid : Text
  pub vout : ℕ
  pub satoshis : ℕ
  pub origin : Origin
  pub age_minutes : ℕ
  pub proof : Option Text
  pub frozen : Bool

unfoldable pub is_frozen : Store → Text → ℕ → Bool
is_frozen s txid vout = any (λ (t, v). text_eq t txid && (v == vout)) s.frozen_outpoints

-- A row of the query with the columns it is ordered by.
pub record Ranked : Type 0 where
  pub coin : Candidate
  pub proven : Bool
  pub value : ℤ

candidate_of : Store → OutputRow → TransactionRow → Text → Ranked
candidate_of s o t txid = record {
  coin = record {
    output_id = o.output_id;
    txid = to_ascii_lowercase txid;
    vout = o.vout;
    satoshis = or_zero o.satoshis;
    origin = origin_of t.is_outgoing;
    age_minutes = age_of o.age;
    proof = proof_of s txid;
    frozen = is_frozen s (to_ascii_lowercase txid) o.vout;
  };
  proven = is_completed t.status;
  value = o.satoshis;
}

-- The row's candidate, where the query's `WHERE` holds.
with_txid : Store → OutputRow → TransactionRow → Option Text → Option Ranked
unfolding candidate_of
with_txid s o t none = none
with_txid s o t (some txid) =
    if o.change
      && (not (is_some o.spent_by))
      && is_spendable_status t.status
      && in_default_basket s o
    then some (candidate_of s o t txid)
    else none

with_transaction : Store → OutputRow → Option TransactionRow → Option Ranked
unfolding with_txid
with_transaction s o none = none
with_transaction s o (some t) = with_txid s o t t.txid

pub candidate? : Store → OutputRow → Option Ranked
unfolding with_transaction
candidate? s o = with_transaction s o (transaction_of s o.transaction_id)

-- Completed first, then the largest; rows that tie keep the table's order.
before : Ranked → Ranked → Bool
before a b =
    if a.proven
    then (if b.proven then ltb_ℤ b.value a.value else true)
    else (if b.proven then false else ltb_ℤ b.value a.value)

insert_ranked : Ranked → List Ranked → List Ranked
unfolding before
insert_ranked r [] = r ∷ []
insert_ranked r (q ∷ qs) =
    let rest = insert_ranked r qs in if before q r then q ∷ rest else r ∷ q ∷ qs

add_ranked : Option Ranked → List Ranked → List Ranked
unfolding insert_ranked
add_ranked none rs = rs
add_ranked (some r) rs = insert_ranked r rs

rank : Store → List OutputRow → List Ranked
unfolding add_ranked
rank s [] = []
rank s (o ∷ os) = add_ranked (candidate? s o) (rank s os)

coins_of : List Ranked → List Candidate
coins_of [] = []
coins_of (r ∷ rs) = r.coin ∷ coins_of rs

unfoldable pub candidates : Store → List Candidate
unfolding rank coins_of
candidates s = coins_of (rank s s.outputs)

unfoldable pub print_coin : Text → ℕ → Text
print_coin txid vout = txid ++ b'.' ∷ decimal vout

abbrev is_final : TxStatus → Bool
is_final completed = true
is_final failed = true
is_final _ = false

abbrev pub or_empty : Option Text → Text
or_empty none = []
or_empty (some t) = t

-- `COALESCE(s.txid, s.reference)`.
abbrev pub holder_of : TransactionRow → Text
holder_of s = elim s.txid [ some t ↦ t | none ↦ or_empty s.reference ]

locked_coin : OutputRow → TransactionRow → TransactionRow → HeldCoin
locked_coin o t s = record {
  outpoint = print_coin (or_empty t.txid) o.vout;
  satoshis = or_zero o.satoshis;
  word = codes "locked";
  origin = origin_of t.is_outgoing;
  age_minutes = age_of o.age;
  reason = spent_by_reason (holder_of s) none;
  headers_fault = false;
  output_id = o.output_id;
}

locked_by : Store → OutputRow → Option TransactionRow → Option TransactionRow → List HeldCoin
unfolding locked_coin
locked_by st o (some t) (some s) =
    if o.change && not (is_final s.status) && is_spendable_status t.status && in_default_basket st o
    then locked_coin o t s ∷ []
    else []
locked_by st o _ _ = []

spender_of : Store → OutputRow → Option TransactionRow
spender_of st o = elim o.spent_by [ none ↦ none | some id ↦ transaction_of st id ]

locked_rows : Store → List OutputRow → List HeldCoin
unfolding locked_by spender_of
locked_rows st [] = []
locked_rows st (o ∷ os) =
    locked_by st o (transaction_of st o.transaction_id) (spender_of st o) ++ locked_rows st os

unfoldable pub locked : Store → List HeldCoin
unfolding locked_rows
locked st = locked_rows st st.outputs
