-- ===== src/Cleanup/Pass.antt =====
-- What a pass of src/commands/cleanup_abandoned.rs decides before it writes: the first part of
-- `reconcile_with`. `probe` is the presence probe and `input_spend` the spend probe; a pass asks
-- each about a transaction or an outpoint once.
use bsv_wallet_cli.Prelude.{
  ℕ, Option, none, Bool, false, ◌||◌, not, List, [], ◌∷◌, ◌++◌, map, if◌then◌else◌, is_empty,
  length,
}
use bsv_wallet_cli.Prelude.Text.{Text}
use bsv_wallet_cli.BroadcastVerify.Rounds.{PresenceReport, inconclusive, from_verification}
use bsv_wallet_cli.Guard.Retire.{broadcaster_took}
use bsv_wallet_cli.Cleanup.Store.{
  Wallet, TransactionRow, BasketTally, TrackedInput, StaleReq, tracked_inputs, records_of,
  select_stale_unproven, select_stale_reqs, default_basket_sats,
}
use bsv_wallet_cli.Cleanup.Decide.{
  InputSpend, Verdict, kept, verdict_inconclusive, absent_on_clock, dead_absent,
  absent_past_threshold, dead_conflict, is_dead, is_index_present, presence_verdict, has_conflict,
  verdict_for,
}

pub record ReconcileReport : Type 0 where
  pub absence_minutes : ℕ
  pub checked : ℕ
  pub kept_txids : List Text
  pub inconclusive_txids : List Text
  pub on_clock : List (Text × ℕ)
  pub abandoned : List Text
  pub absent_announced : List Text
  pub past_threshold : List (Text × ℕ)
  pub conflicted : List Text
  pub stale_reqs_checked : ℕ
  pub stale_reqs_retired : List Text
  pub stale_reqs_known : List Text
  pub stale_reqs_kept : List Text
  pub applied : Bool
  pub failed : ℕ
  pub reqs_retired : ℕ
  pub restored_count : ℕ
  pub restored_sats : ℕ
  pub relinquished_count : ℕ
  pub relinquished_sats : ℕ
  pub kept_locked_count : ℕ
  pub phantom_count : ℕ
  pub phantom_sats : ℕ
  pub balance_before : ℕ
  pub balance_after : Option ℕ
  pub turned_off : List BasketTally
  pub turned_on : List BasketTally

unfoldable pub dead_txids : ReconcileReport → List Text
dead_txids r = r.abandoned ++ r.conflicted

unfoldable pub has_work : ReconcileReport → Bool
has_work r =
    not (is_empty r.abandoned) || not (is_empty r.conflicted) || not (is_empty r.stale_reqs_retired)

abbrev pub new_report : ℕ → ℕ → ReconcileReport
new_report absence balance = record {
  absence_minutes = absence;
  checked = 0;
  kept_txids = [];
  inconclusive_txids = [];
  on_clock = [];
  abandoned = [];
  absent_announced = [];
  past_threshold = [];
  conflicted = [];
  stale_reqs_checked = 0;
  stale_reqs_retired = [];
  stale_reqs_known = [];
  stale_reqs_kept = [];
  applied = false;
  failed = 0;
  reqs_retired = 0;
  restored_count = 0;
  restored_sats = 0;
  relinquished_count = 0;
  relinquished_sats = 0;
  kept_locked_count = 0;
  phantom_count = 0;
  phantom_sats = 0;
  balance_before = balance;
  balance_after = none;
  turned_off = [];
  turned_on = [];
}

-- A transaction to abandon, with the answer on each of its tracked inputs.
pub record DeadCandidate : Type 0 where
  pub tx_id : ℕ
  pub txid : Text
  pub answers : List (TrackedInput × InputSpend)

abbrev pub Progress : Type 0
Progress = ReconcileReport × List DeadCandidate

-- The report's list for a verdict.
unfoldable pub enter : Verdict → TransactionRow → ReconcileReport → ReconcileReport
enter kept t r = record r { kept_txids = r.kept_txids ++ t.txid ∷ [] }
enter verdict_inconclusive t r = record r {
  inconclusive_txids = r.inconclusive_txids ++ t.txid ∷ [];
}
enter absent_on_clock t r = record r { on_clock = r.on_clock ++ (t.txid, t.age_minutes) ∷ [] }
enter dead_absent t r = record r { abandoned = r.abandoned ++ t.txid ∷ [] }
enter absent_past_threshold t r = record r {
  past_threshold = r.past_threshold ++ (t.txid, t.age_minutes) ∷ [];
}
enter dead_conflict t r = record r { conflicted = r.conflicted ++ t.txid ∷ [] }

enter_dead : Verdict → TransactionRow → List (TrackedInput × InputSpend) → Progress → Progress
enter_dead v t answers s = (
  enter v t s.0,
  if is_dead v
      then s.1 ++ record { tx_id = t.transaction_id; txid = t.txid; answers = answers } ∷ []
      else s.1,
)

-- `took` is whether a broadcaster took the transaction, which is asked of an absent one only.
unfoldable pub settle :
    Verdict → Bool → TransactionRow → List (TrackedInput × InputSpend) → Progress → Progress
unfolding enter_dead
settle dead_absent took t answers s =
    if took
    then (record s.0 { absent_announced = s.0.absent_announced ++ t.txid ∷ [] }, s.1)
    else enter_dead dead_absent t answers s
settle v took t answers s = enter_dead v t answers s

module _ (probe : Text → PresenceReport) (input_spend : Text → ℕ → InputSpend) where
  unfoldable pub answers_of : Wallet → ℕ → List (TrackedInput × InputSpend)
  answers_of w tx_id =
      map (λ (i : TrackedInput). (i, input_spend i.source_txid i.vout)) (tracked_inputs w tx_id)

  unfoldable pub spends_of : Wallet → ℕ → List InputSpend
  unfolding answers_of
  spends_of w tx_id = map (λ (a : TrackedInput × InputSpend). a.1) (answers_of w tx_id)

  -- The presence probe is asked only when no input says that the transaction is dead.
  unfoldable pub presence_of : Text → List InputSpend → PresenceReport
  presence_of txid spends =
      if has_conflict txid spends then from_verification inconclusive else probe txid

  unfoldable pub verdict_of : Wallet → ℕ → TransactionRow → Verdict
  verdict_of w absence t =
      let spends = spends_of w t.transaction_id in
      verdict_for t.txid spends (presence_of t.txid spends) t.age_minutes absence

  unfoldable pub decide : Wallet → ℕ → List TransactionRow → Progress → Progress
  decide w absence [] s = s
  decide w absence (t ∷ ts) s = decide w absence ts (
      settle (verdict_of w absence t) (broadcaster_took (records_of w) t.txid) t
        (answers_of w t.transaction_id) s)

  abbrev enter_known : Bool → Text → ReconcileReport → ReconcileReport
  enter_known known txid r =
      if known
      then record r { stale_reqs_known = r.stale_reqs_known ++ txid ∷ [] }
      else record r { stale_reqs_kept = r.stale_reqs_kept ++ txid ∷ [] }

  abbrev pub Retired : Type 0
  Retired = ReconcileReport × List (ℕ × Text)

  retire_req : StaleReq → Retired → Retired
  retire_req q s = (
    record s.0 { stale_reqs_retired = s.0.stale_reqs_retired ++ q.txid ∷ [] },
    s.1 ++ (q.proven_tx_req_id, q.req_status) ∷ [],
  )

  unfoldable pub settle_req : Verdict → Bool → StaleReq → Retired → Retired
  unfolding retire_req
  settle_req dead_absent known q s = retire_req q s
  settle_req absent_past_threshold known q s = retire_req q s
  settle_req kept known q s = (enter_known known q.txid s.0, s.1)
  settle_req _ known q s = (enter_known false q.txid s.0, s.1)

  unfoldable pub decide_reqs : ℕ → List StaleReq → Retired → Retired
  decide_reqs absence [] s = s
  decide_reqs absence (q ∷ qs) s = decide_reqs absence qs (
      settle_req (presence_verdict (probe q.txid) q.age_minutes absence)
        (is_index_present (probe q.txid).chain_index) q s)

  -- The transactions of a pass, then the proof requests that an earlier verdict left polled.
  unfoldable pub decide_transactions : Wallet → ℕ → ℕ → Progress
  decide_transactions w min_age_secs absence =
      let rows = select_stale_unproven w min_age_secs in
      decide w absence rows
        (record (new_report absence (default_basket_sats w)) { checked = length rows }, [])

  unfoldable pub decide_requests : Wallet → ℕ → ℕ → ReconcileReport → Retired
  decide_requests w min_age_secs absence r =
      let stale = select_stale_reqs w min_age_secs in
      decide_reqs absence stale (record r { stale_reqs_checked = length stale }, [])
