-- ===== src/Guard/Spend.antt =====
-- `run` of src/spend_guard.rs over the rows that it reads and writes. A transaction id is at most one
-- transaction's and one request's; `hint` says that a request's history has the immediate hint.
-- `reserve_inputs` of src/respend.rs, which runs first, is a parameter; faults of the database
-- are left out.
pub mod Quiet
use bsv_wallet_cli.Prelude.{
  ℕ, Option, none, some, Bool, true, false, ◌&&◌, ◌||◌, not, List, [], ◌∷◌, ◌++◌, ◌==◌,
  if◌then◌else◌, any, select, map,
}
use bsv_wallet_cli.Prelude.Text.{Text, codes, text_eq}

pub record GuardOutput : Type 0 where
  pub output_id : ℕ
  pub transaction_id : ℕ
  pub spendable : Bool
  pub is_spent : Bool

pub record GuardTransaction : Type 0 where
  pub transaction_id : ℕ
  pub txid : Option Text
  pub status : Text

pub record GuardRequest : Type 0 where
  pub txid : Text
  pub status : Text
  pub hint : Bool

pub record Hold : Type 0 where
  pub output_id : ℕ
  pub txid : Text

pub record GuardStore : Type 0 where
  pub outputs : List GuardOutput
  pub transactions : List GuardTransaction
  pub requests : List GuardRequest
  pub holds : List Hold

pub record GuardReport : Type 0 where
  pub held : List Text
  pub released : List Text
  pub dropped : List Text

abbrev among : List Text → Text → Bool
among ws t = any (λ w. text_eq w t) ws

abbrev has_txid : Text → GuardTransaction → Bool
has_txid txid t = elim t.txid [ none ↦ false | some u ↦ text_eq u txid ]

status_of_tx : List GuardTransaction → Text → Text
status_of_tx [] txid = []
status_of_tx (t ∷ ts) txid =
    let rest = status_of_tx ts txid in if has_txid txid t then t.status else rest

request_of : List GuardRequest → Text → Option GuardRequest
request_of [] txid = none
request_of (r ∷ rs) txid =
    let rest = request_of rs txid in if text_eq r.txid txid then some r else rest

abbrev request_status : Option GuardRequest → Text
request_status none = []
request_status (some r) = r.status

-- The transactions with a hold, each once.
held_txids : List Hold → List Text
held_txids [] = []
held_txids (h ∷ hs) = let rest = held_txids hs in if among rest h.txid then rest else h.txid ∷ rest

pub data Fate : Type 0 where
  drops releases waits : Fate

pub fate_of : Text → Text → Fate
fate_of tx_status req_status =
    if text_eq tx_status (codes "failed")
      || among (codes "invalid" ∷ codes "doubleSpend" ∷ []) req_status
    then drops
    else if text_eq tx_status (codes "completed")
        || among (codes "unmined" ∷ codes "completed" ∷ []) req_status
    then releases
    else waits

pub fate : GuardStore → Text → Fate
unfolding fate_of status_of_tx request_of
fate st txid =
    fate_of (status_of_tx st.transactions txid) (request_status (request_of st.requests txid))

abbrev is_held : List Hold → Text → GuardOutput → Bool
is_held hs txid o = any (λ (h : Hold). text_eq h.txid txid && (h.output_id == o.output_id)) hs

give_back : List Hold → Text → GuardOutput → GuardOutput
give_back hs txid o =
    if not o.spendable && not o.is_spent && is_held hs txid o
    then record o { spendable = true }
    else o

forget : Text → List Hold → List Hold
forget txid hs = select (λ (h : Hold). not (text_eq h.txid txid)) hs

settle : Fate → Text → GuardStore × GuardReport → GuardStore × GuardReport
unfolding give_back forget
settle drops txid (st, rep) =
    (record st { holds = forget txid st.holds }, record rep { dropped = rep.dropped ++ txid ∷ [] })
settle releases txid (st, rep) = (
  record st { outputs = map (give_back st.holds txid) st.outputs; holds = forget txid st.holds },
  record rep { released = rep.released ++ txid ∷ [] },
)
settle waits txid s = s

pub settle_all : List Text → GuardStore × GuardReport → GuardStore × GuardReport
unfolding settle fate
settle_all [] s = s
settle_all (txid ∷ txids) s = settle_all txids (settle (fate s.0 txid) txid s)

txid_of : List GuardTransaction → ℕ → Option (Text × Text)
txid_of [] id = none
txid_of (t ∷ ts) id =
    let rest = txid_of ts id in
    if t.transaction_id == id
    then elim t.txid [ none ↦ none | some u ↦ some (u, t.status) ]
    else rest

refused_request : Text → Option GuardRequest → Bool
refused_request tx_status none = false
refused_request tx_status (some r) =
    among (codes "unproven" ∷ codes "sending" ∷ []) tx_status
    && among (codes "unsent" ∷ codes "sending" ∷ codes "unprocessed" ∷ []) r.status
    && r.hint

-- The transaction of the output, where no broadcaster's word came after the hint.
hinted_txid : GuardStore → Option (Text × Text) → Option Text
unfolding refused_request
hinted_txid st none = none
hinted_txid st (some (txid, status)) =
    if refused_request status (request_of st.requests txid) then some txid else none

-- The output is one that the toolbox could select.
abbrev pub is_selectable : GuardOutput → Bool
is_selectable o = o.spendable && not o.is_spent

pub txid_to_hold : GuardStore → ℕ → Option Text
unfolding txid_of hinted_txid
txid_to_hold st transaction_id = hinted_txid st (txid_of st.transactions transaction_id)

held_row : Bool → GuardOutput → Option Text → List Hold → List Hold
held_row selectable o none rest = rest
held_row selectable o (some txid) rest =
    if selectable then record { output_id = o.output_id; txid = txid } ∷ rest else rest

pub rows_to_hold : GuardStore → List GuardOutput → List Hold
unfolding held_row
rows_to_hold st [] = []
rows_to_hold st (o ∷ os) =
    held_row (is_selectable o) o (txid_to_hold st o.transaction_id) (rows_to_hold st os)

pub set_held : ℕ → GuardOutput → GuardOutput
set_held id o = if (o.output_id == id) && is_selectable o then record o { spendable = false } else o

hold_row : Hold → GuardStore × GuardReport → GuardStore × GuardReport
unfolding set_held
hold_row h (st, rep) = (
  record st {
    outputs = map (set_held h.output_id) st.outputs;
    holds =
        if any (λ (k : Hold). k.output_id == h.output_id) st.holds
        then st.holds
        else st.holds ++ h ∷ [];
  },
  if among rep.held h.txid then rep else record rep { held = rep.held ++ h.txid ∷ [] },
)

pub hold_rows : List Hold → GuardStore × GuardReport → GuardStore × GuardReport
unfolding hold_row
hold_rows [] s = s
hold_rows (h ∷ hs) s = hold_rows hs (hold_row h s)

abbrev quiet_report : GuardReport
quiet_report = record { held = []; released = []; dropped = [] }

pub run : (GuardStore → GuardStore) → GuardStore → GuardStore × GuardReport
unfolding settle_all hold_rows rows_to_hold held_txids
run reserve_inputs st =
    let start = reserve_inputs st in
    let s = settle_all (held_txids start.holds) (start, quiet_report) in
    hold_rows (rows_to_hold s.0 s.0.outputs) s
