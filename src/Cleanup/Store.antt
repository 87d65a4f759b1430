-- ===== src/Cleanup/Store.antt =====
-- The rows that the clean-up reads and writes, and its queries: src/commands/cleanup_abandoned.rs,
-- and `tally` and `default_basket_sats` of src/commands/balance.rs. A row's age is the value of the
-- age expression, in seconds and in minutes. `updated_at` is left out.
use bsv_wallet_cli.Prelude.{
  ℕ, ◌+◌, ◌%◌, ◌^◌, Option, none, some, Bool, false, ◌&&◌, ◌||◌, not, List, [], ◌∷◌, ◌++◌, map, leb,
  ◌==◌, if◌then◌else◌, select, sum_by,
}
use bsv_wallet_cli.Prelude.Text.{Text, codes, text_eq}
use bsv_wallet_cli.Guard.Retire.{Records, WordRow, is_one_of}

pub record OutputRow : Type 0 where
  pub output_id : ℕ
  pub transaction_id : ℕ
  pub vout : ℕ
  pub satoshis : ℕ
  pub spendable : Bool
  pub spent_by : Option ℕ
  pub basket_id : Option ℕ

pub record TransactionRow : Type 0 where
  pub transaction_id : ℕ
  pub txid : Text
  pub reference : Text
  pub status : Text
  pub age_seconds : ℕ
  pub age_minutes : ℕ

pub record BasketRow : Type 0 where
  pub basket_id : ℕ
  pub name : Text
  pub is_deleted : Bool

pub record RequestRow : Type 0 where
  pub proven_tx_req_id : ℕ
  pub txid : Text
  pub status : Text
  pub attempts : ℕ

pub record Wallet : Type 0 where
  pub outputs : List OutputRow
  pub transactions : List TransactionRow
  pub baskets : List BasketRow
  pub requests : List RequestRow
  pub broadcast_seen : Option (List WordRow)
  pub tracker_states : Option (List WordRow)

-- What `broadcaster_took` reads of the wallet.
unfoldable pub records_of : Wallet → Records
records_of w = record {
  reqs = map (λ (r : RequestRow). record { txid = r.txid; status = r.status }) w.requests;
  transactions =
      map
        (λ (t : TransactionRow). record {
          txid = some t.txid;
          reference = t.reference;
          status = t.status;
        })
        w.transactions;
  broadcast_seen = w.broadcast_seen;
  tracker_states = w.tracker_states;
}

unfoldable pub transaction_of : List TransactionRow → ℕ → Option TransactionRow
transaction_of [] id = none
transaction_of (t ∷ ts) id =
    let rest = transaction_of ts id in if t.transaction_id == id then some t else rest

basket_of : List BasketRow → ℕ → Option BasketRow
basket_of [] id = none
basket_of (b ∷ bs) id = let rest = basket_of bs id in if b.basket_id == id then some b else rest

basket_row : Wallet → Option ℕ → Option BasketRow
basket_row w none = none
basket_row w (some id) = basket_of w.baskets id

name_of : Option BasketRow → Text
name_of none = codes "(no basket)"
name_of (some b) = b.name

-- `BASKET_NAME_SQL`.
unfoldable pub basket_name : Wallet → OutputRow → Text
unfolding name_of basket_row basket_of
basket_name w o = name_of (basket_row w o.basket_id)

unfoldable pub balance_statuses : List Text
balance_statuses = codes "completed" ∷ codes "unproven" ∷ codes "nosend" ∷ codes "sending" ∷ []

is_listed : Option TransactionRow → Bool
is_listed none = false
is_listed (some t) = is_one_of balance_statuses t.status

is_default : Option BasketRow → Bool
is_default none = false
is_default (some b) = text_eq b.name (codes "default") && not b.is_deleted

counted : Wallet → OutputRow → Bool
unfolding is_listed is_default
counted w o =
    o.spendable
    && is_listed (transaction_of w.transactions o.transaction_id)
    && is_default (basket_row w o.basket_id)

unfoldable pub default_basket_sats : Wallet → ℕ
unfolding counted is_listed is_default basket_row basket_of
default_basket_sats w = sum_by (λ o. if counted w o then o.satoshis else 0) w.outputs

pub record BasketTally : Type 0 where
  pub basket : Text
  pub rows : ℕ
  pub sats : ℕ

unfoldable pub tally : List BasketTally → Text → ℕ → List BasketTally
tally [] basket sats = record { basket = basket; rows = 1; sats = sats } ∷ []
tally (t ∷ ts) basket sats =
    let rest = tally ts basket sats in
    if text_eq t.basket basket
    then record t { rows = t.rows + 1; sats = t.sats + sats } ∷ ts
    else t ∷ rest

-- One input of a candidate: the coin that it locks, and where the coin came from.
pub record TrackedInput : Type 0 where
  pub output_id : ℕ
  pub satoshis : ℕ
  pub spendable : Bool
  pub basket : Text
  pub source_txid : Text
  pub vout : ℕ

unfoldable pub is_spent_by : ℕ → Option ℕ → Bool
is_spent_by tx_id none = false
is_spent_by tx_id (some id) = id == tx_id

tracked_input : Wallet → OutputRow → Option TransactionRow → List TrackedInput
tracked_input w o none = []
tracked_input w o (some t) =
    record {
      output_id = o.output_id;
      satoshis = o.satoshis;
      spendable = o.spendable;
      basket = basket_name w o;
      source_txid = t.txid;
      vout = o.vout % 2 ^ 32;
    }
    ∷ []

tracked_rows : Wallet → ℕ → List OutputRow → List TrackedInput
tracked_rows w tx_id [] = []
tracked_rows w tx_id (o ∷ os) =
    let rest = tracked_rows w tx_id os in
    if is_spent_by tx_id o.spent_by
    then tracked_input w o (transaction_of w.transactions o.transaction_id) ++ rest
    else rest

unfoldable pub tracked_inputs : Wallet → ℕ → List TrackedInput
unfolding tracked_rows tracked_input
tracked_inputs w tx_id = tracked_rows w tx_id w.outputs

-- An abandoned transaction's own outputs that are still spendable.
unfoldable pub phantom_rows : Wallet → ℕ → List OutputRow
phantom_rows w tx_id = select (λ o. (o.transaction_id == tx_id) && o.spendable) w.outputs

is_stale : ℕ → TransactionRow → Bool
is_stale min_age_secs t =
    (text_eq t.status (codes "unproven") && leb min_age_secs t.age_seconds)
    || (text_eq t.status (codes "sending")
        && leb min_age_secs t.age_seconds
        && leb 600 t.age_seconds)

unfoldable pub select_stale_unproven : Wallet → ℕ → List TransactionRow
unfolding is_stale
select_stale_unproven w min_age_secs = select (is_stale min_age_secs) w.transactions

unfoldable pub polled_req_statuses : List Text
polled_req_statuses =
    codes "unmined"
    ∷ codes "unknown"
    ∷ codes "callback"
    ∷ codes "sending"
    ∷ codes "unconfirmed"
    ∷ codes "unsent"
    ∷ codes "nosend"
    ∷ []

-- A polled request of a failed transaction, with the transaction's age.
pub record StaleReq : Type 0 where
  pub proven_tx_req_id : ℕ
  pub txid : Text
  pub req_status : Text
  pub age_minutes : ℕ

stale_rows : ℕ → RequestRow → List TransactionRow → List StaleReq
stale_rows min_age_secs r [] = []
stale_rows min_age_secs r (t ∷ ts) =
    let rest = stale_rows min_age_secs r ts in
    if text_eq t.txid r.txid
      && text_eq t.status (codes "failed")
      && is_one_of polled_req_statuses r.status
      && leb min_age_secs t.age_seconds
    then record {
      proven_tx_req_id = r.proven_tx_req_id;
      txid = r.txid;
      req_status = r.status;
      age_minutes = t.age_minutes;
    }
      ∷ rest
    else rest

joined_reqs : Wallet → ℕ → List RequestRow → List StaleReq
joined_reqs w min_age_secs [] = []
joined_reqs w min_age_secs (r ∷ rs) =
    stale_rows min_age_secs r w.transactions ++ joined_reqs w min_age_secs rs

insert_req : StaleReq → List StaleReq → List StaleReq
insert_req r [] = r ∷ []
insert_req r (s ∷ ss) =
    let rest = insert_req r ss in
    if leb r.proven_tx_req_id s.proven_tx_req_id then r ∷ s ∷ ss else s ∷ rest

by_req_id : List StaleReq → List StaleReq
by_req_id [] = []
by_req_id (r ∷ rs) = insert_req r (by_req_id rs)

unfoldable pub select_stale_reqs : Wallet → ℕ → List StaleReq
unfolding joined_reqs stale_rows by_req_id insert_req
select_stale_reqs w min_age_secs = by_req_id (joined_reqs w min_age_secs w.requests)
