-- ===== src/SpendGate/Hold.antt =====
-- The gate's judgment of one coin: `Origin`, `GateOptions`, `HeldCoin`, `hold_reason`,
-- `spent_by_reason` and `service_error` of src/spend_gate.rs, with `CreatorReading` and
-- `word_label` of src/tracker_host.rs. A reason is the text that the source formats.
pub mod Rules
pub mod Fault
use bsv_wallet_cli.Prelude.{
  ℕ, Option, none, some, Bool, true, false, List, [], ◌∷◌, ◌++◌, ◌==◌, if◌then◌else◌, max, String,
}
use bsv_wallet_cli.Prelude.Text.{Text, codes, decimal, strip_prefix}
use bsv_wallet_cli.SpendGate.Word.{AllowPending, reaches, is_on}

pub data Origin : Type 0 where
  made received_payment : Origin

-- The tracker's words, each under its label.
pub data Word : Type 0 where
  unknown built announced seen mined stale rejected conflicted abandoned : Word

unfoldable pub word_label : Word → Text
word_label unknown = codes "unknown"
word_label built = codes "built"
word_label announced = codes "announced"
word_label seen = codes "seen"
word_label mined = codes "mined"
word_label stale = codes "stale"
word_label rejected = codes "rejected"
word_label conflicted = codes "conflicted"
word_label abandoned = codes "abandoned"

pub record CreatorReading : Type 0 where
  pub word : Word
  pub depth : ℕ
  pub suspect : Bool
  pub offered : Bool
  pub fault : Option Text
  pub headers_fault : Bool

pub record GateOptions : Type 0 where
  pub spend_depth : ℕ
  pub own_change : Bool
  pub allow_pending : AllowPending

pub record HeldCoin : Type 0 where
  pub outpoint : Text
  pub satoshis : ℕ
  pub word : Text
  pub origin : Origin
  pub age_minutes : ℕ
  pub reason : Text
  pub headers_fault : Bool
  pub output_id : ℕ

abbrev pub default_spend_depth : ℕ
default_spend_depth = 1

unfoldable pub headers_unavailable_prefix : Text
headers_unavailable_prefix = codes "headers unavailable: "

unfoldable pub not_named_hint : Text
not_named_hint = codes "not named under allowPending: received"

unfoldable pub allow_pending_hint : Text
allow_pending_hint = codes "offered under allowPending: received"

pub blocks : ℕ → Text
blocks n = if n == 1 then codes "1 block" else decimal n ++ codes " blocks"

unfoldable pub depth_text : CreatorReading → GateOptions → Text
unfolding blocks
depth_text reading opts =
    codes "depth "
    ++ (decimal (max opts.spend_depth default_spend_depth) ++ (codes ": " ++ blocks reading.depth))

abbrev pending_reason : Origin → Text → ℕ → Text → GateOptions → Option Text
pending_reason received_payment txid vout depth opts =
    if reaches opts.allow_pending txid vout
    then none
    else if is_on opts.allow_pending
    then some (depth ++ (codes "; received, no proof; " ++ not_named_hint))
    else some (depth ++ (codes "; received, no proof; " ++ allow_pending_hint))
pending_reason made txid vout depth opts =
    if opts.own_change then none else some (depth ++ codes "; own change, SPEND_OWN_CHANGE=0")

never : Word → Option Text
unfolding word_label
never word = some (word_label word ++ codes ": never offered")

word_reason : Word → Bool → Origin → Text → ℕ → Text → GateOptions → Option Text
unfolding never
word_reason mined suspect origin txid vout depth opts =
    if suspect
    then some (codes "suspect: a fork or an unresolved split at or below its height")
    else some depth
word_reason stale suspect origin txid vout depth opts = never stale
word_reason rejected suspect origin txid vout depth opts = never rejected
word_reason conflicted suspect origin txid vout depth opts = never conflicted
word_reason abandoned suspect origin txid vout depth opts = never abandoned
word_reason _ suspect origin txid vout depth opts = pending_reason origin txid vout depth opts

judge : Option Text → CreatorReading → Origin → Text → ℕ → GateOptions → Option Text
unfolding word_reason
judge (some fault) reading origin txid vout opts = some (headers_unavailable_prefix ++ fault)
judge none reading origin txid vout opts =
    if reading.offered
    then none
    else word_reason reading.word reading.suspect origin txid vout (depth_text reading opts) opts

unfoldable pub hold_reason : CreatorReading → Origin → Text → ℕ → GateOptions → Option Text
unfolding judge
hold_reason reading origin txid vout opts = judge reading.fault reading origin txid vout opts

-- The status of the action that consumed a coin; `none` where it is known to be live.
pub data TxStatus : Type 0 where
  completed unproven failed : TxStatus
  other : Text → TxStatus

unfoldable pub spent_by_reason : Text → Option TxStatus → Text
spent_by_reason spender (some completed) = codes "spent by " ++ spender
spent_by_reason spender (some failed) = codes "spent by " ++ (spender ++ codes " (failed)")
spent_by_reason spender _ = codes "spent by " ++ (spender ++ codes " (unproven)")

unfoldable pub frozen_reason : Text
frozen_reason = codes "frozen: never offered"

-- The header service's error that a coin is held on, from its reason.
unfoldable pub service_error : HeldCoin → Option Text
service_error coin =
    if coin.headers_fault then strip_prefix headers_unavailable_prefix coin.reason else none
