-- ===== src/Reconcile/Tables.antt =====
-- The tables that src/broadcast_reconcile.rs queries, its queries, and `needs_probe`. An age is
-- the value of the source's time expression; a memory row's status is the toolbox's reading of it.
-- The rows of `transactions` stand in the order of their ids, by which the queries of roots sort.
use bsv_wallet_cli.Prelude.{
  ℕ, ◌*◌, Option, none, some, Bool, true, false, ◌&&◌, ◌||◌, not, List, [], ◌∷◌, map, leb, ◌==◌,
  if◌then◌else◌, any, select,
}
use bsv_wallet_cli.Prelude.Text.{Text, codes, text_eq}
use bsv_wallet_cli.Guard.Retire.{is_one_of}

pub record TransactionRow : Type 0 where
  pub transaction_id : ℕ
  pub txid : Option Text
  pub status : Text
  pub age_seconds : ℕ
  pub age_minutes : ℕ

pub record OutputRow : Type 0 where
  pub transaction_id : ℕ
  pub spent_by : Option ℕ

-- The toolbox's `BroadcastStatus`, as far as the source names it.
pub data BroadcastStatus : Type 0 where
  status_seen status_mined status_rejected status_other : BroadcastStatus

-- A row of the broadcast memory: its provider is the chain index or another.
pub record SeenRecord : Type 0 where
  pub txid : Text
  pub is_chain : Bool
  pub ladder_status : Option BroadcastStatus
  pub is_network_evidence : Bool
  pub age_seconds : ℕ

pub record Tables : Type 0 where
  pub transactions : List TransactionRow
  pub outputs : List OutputRow
  pub memory : List SeenRecord

pub record Candidate : Type 0 where
  pub txid : Text
  pub age_minutes : ℕ

unfoldable pub has_status : BroadcastStatus → Option BroadcastStatus → Bool
has_status s none = false
has_status status_seen (some status_seen) = true
has_status status_mined (some status_mined) = true
has_status status_rejected (some status_rejected) = true
has_status s (some t) = false

-- `stale_secs` is the toolbox's `BROADCAST_SEEN_STALE_SECS`.
unfoldable pub needs_probe : ℕ → ℕ → ℕ → List SeenRecord → Bool
needs_probe stale_secs age_minutes absence_minutes records =
    if any (λ (r : SeenRecord). r.is_chain && has_status status_mined r.ladder_status) records
    then false
    else if leb absence_minutes age_minutes
    then not (
        any
          (λ (r : SeenRecord).
            r.is_chain && has_status status_seen r.ladder_status && leb r.age_seconds stale_secs)
          records)
    else not
        (any (λ (r : SeenRecord). r.is_network_evidence && leb r.age_seconds stale_secs) records)

is_listed : Option ℕ → TransactionRow → Bool
is_listed max_age_hours t =
    (text_eq t.status (codes "unproven")
      || (text_eq t.status (codes "sending") && leb 600 t.age_seconds))
    && elim max_age_hours [ none ↦ true | some h ↦ leb t.age_seconds (h * 3600) ]

-- The older first, then by id.
is_before : TransactionRow → TransactionRow → Bool
is_before a b =
    if a.age_seconds == b.age_seconds
    then leb a.transaction_id b.transaction_id
    else leb b.age_seconds a.age_seconds

insert_row : TransactionRow → List TransactionRow → List TransactionRow
insert_row t [] = t ∷ []
insert_row t (u ∷ us) = let rest = insert_row t us in if is_before t u then t ∷ u ∷ us else u ∷ rest

by_age : List TransactionRow → List TransactionRow
by_age [] = []
by_age (t ∷ ts) = insert_row t (by_age ts)

first_of_each : List Text → List TransactionRow → List Candidate
first_of_each seen [] = []
first_of_each seen (t ∷ ts) = elim (t.txid) [
  | none ↦ first_of_each seen ts
  | some txid ↦
      if is_one_of seen txid
      then first_of_each seen ts
      else record { txid = txid; age_minutes = t.age_minutes } ∷ first_of_each (txid ∷ seen) ts
]

unfoldable pub select_candidates : Tables → Option ℕ → List Candidate
unfolding by_age insert_row is_before is_listed first_of_each
select_candidates d max_age_hours =
    first_of_each [] (by_age (select (is_listed max_age_hours) d.transactions))

is_row : ℕ → Option ℕ → Bool
is_row id none = false
is_row id (some n) = id == n

-- Whether the output is spent by a transaction whose status is one of these.
spent_by_status : Tables → List Text → OutputRow → Bool
spent_by_status d statuses o =
    any (λ (c : TransactionRow). is_row c.transaction_id o.spent_by && is_one_of statuses c.status)
      d.transactions

distinct : List Text → List (Option Text) → List Text
distinct seen [] = []
distinct seen (none ∷ ts) = distinct seen ts
distinct seen (some t ∷ ts) =
    let rest = distinct seen ts in
    let next = distinct (t ∷ seen) ts in if is_one_of seen t then rest else t ∷ next

-- Failed transactions with an output that an unresolved transaction spends.
unfoldable pub sweep_roots : Tables → List Text
unfolding distinct spent_by_status is_row
sweep_roots d = distinct [] (
    map (λ (t : TransactionRow). t.txid)
      (select
        (λ (p : TransactionRow).
          text_eq p.status (codes "failed")
          && any
              (λ (o : OutputRow).
                (o.transaction_id == p.transaction_id)
                && spent_by_status d (codes "unproven" ∷ codes "sending" ∷ codes "nosend" ∷ []) o)
              d.outputs)
        d.transactions))

is_txid : Text → Option Text → Bool
is_txid txid none = false
is_txid txid (some t) = text_eq txid t

-- Unresolved transactions for which the memory holds a rejected row.
unfoldable pub rejected_roots : Tables → List Text
unfolding distinct is_txid
rejected_roots d = distinct [] (
    map (λ (t : TransactionRow). t.txid)
      (select
        (λ (t : TransactionRow).
          is_one_of (codes "unproven" ∷ codes "sending" ∷ []) t.status
          && any
              (λ (r : SeenRecord).
                is_txid r.txid t.txid && has_status status_rejected r.ladder_status)
              d.memory)
        d.transactions))

id_of : Text → List TransactionRow → Option ℕ
id_of txid [] = none
id_of txid (t ∷ ts) =
    let rest = id_of txid ts in if is_txid txid t.txid then some t.transaction_id else rest

is_spent_in : Option ℕ → Option ℕ → Bool
is_spent_in none spent_by = false
is_spent_in (some id) spent_by = is_row id spent_by

-- Unresolved transactions whose outputs the transaction spends.
unfoldable pub unproven_parents : Tables → Text → List Text
unfolding distinct id_of is_txid is_spent_in is_row
unproven_parents d txid = distinct [] (
    map (λ (t : TransactionRow). t.txid)
      (select
        (λ (t : TransactionRow).
          is_one_of (codes "unproven" ∷ codes "sending" ∷ []) t.status
          && any
              (λ (o : OutputRow).
                (o.transaction_id == t.transaction_id)
                && is_spent_in (id_of txid d.transactions) o.spent_by)
              d.outputs)
        d.transactions))
