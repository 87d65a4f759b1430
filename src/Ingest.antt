-- ===== src/Ingest.antt =====
-- What a pushed status does: src/arc_ingest.rs, with the wallet's own route `arc_callback` of
-- src/server/mod.rs and, in Ingest/Poller, the poller of a relay in src/commands/daemon_tenant.rs.
pub mod Actions
pub mod Poller
pub mod Pages
pub mod Drained
mod Tests
use bsv_wallet_cli.Prelude.{
  ℕ, Option, none, some, Bool, true, false, ◌&&◌, not, if◌then◌else◌, ltb, length, is_empty, Result,
  ok, err, ◌>>=◌,
}
use bsv_wallet_cli.Prelude.Text.{Text, codes, text_eq}
use bsv_wallet_cli.SpendGate.Word.{Json, Fields, string, object, end, field}
use bsv_wallet_cli.SpendGate.Outpoint.{is_txid}
use bsv_wallet_cli.Relay.{Headers, bearer, or_else, max_body}

-- The toolbox's verdict on a `txStatus`, as far as the source tells them apart.
pub data ArcadeVerdict : Type 0 where
  invalid_verdict mined_verdict other_verdict : ArcadeVerdict

-- What `apply_event` answers, and whether it set the re-ask flag.
pub record Applied : Type 0 where
  pub updated : Bool
  pub reask : Bool

-- The toolbox's `Event` is a type of its own, which is read from the payload and handed
-- on whole; of its fields the source itself looks at three.
pub record Toolbox (World Event : Type 0) : Type 0 where
  pub event_of : Json → Option Event
  pub tx_status : Event → Text
  pub extra_info : Event → Option Text
  pub merkle_path : Event → Option Text
  pub apply_event : Event → World → World × Option Applied
  pub is_unmined : Option Text → Bool
  pub arcade_verdict : Text → ArcadeVerdict

pub data IngestAction : Type 0 where
  proof_ingested proof_rejected status_applied status_ignored reask_proof : IngestAction
  refused : Text → IngestAction

pub data IngestError : Type 0 where
  missing_txid invalid_txid not_a_status_body apply_failed : IngestError

field_of : Text → Fields → Option Json
field_of key end = none
field_of key (field k value rest) =
    let later = field_of key rest in if text_eq k key then some value else later

-- `Value::get` with a key, `Value::as_str`.
unfoldable pub get : Text → Json → Option Json
unfolding field_of
get key (object fields) = field_of key fields
get key _ = none

unfoldable pub as_str : Option Json → Option Text
as_str (some (string t)) = some t
as_str _ = none

check_txid : Option Text → Result IngestError Text
check_txid none = err missing_txid
check_txid (some txid) = if is_txid txid then ok txid else err invalid_txid

body_of : {Event : Type 0} → Option Event → Result IngestError Event
body_of none = err not_a_status_body
body_of (some event) = ok event

unfoldable pub offers_path : Option Text → Bool
offers_path none = false
offers_path (some p) = not (is_empty p)

is_invalid : ArcadeVerdict → Bool
is_invalid invalid_verdict = true
is_invalid _ = false

unfoldable pub is_mined : ArcadeVerdict → Bool
is_mined mined_verdict = true
is_mined _ = false

module _ {World Event : Type 0} (toolbox : Toolbox World Event) where
  unfoldable pub action_for : Event → Applied → IngestAction
  unfolding is_invalid
  action_for event applied =
      let verdict = toolbox.arcade_verdict (toolbox.tx_status event) in
      if toolbox.is_unmined (toolbox.extra_info event)
      then reask_proof
      else if is_invalid verdict
      then refused (toolbox.tx_status event)
      else if is_mined verdict && offers_path (toolbox.merkle_path event)
      then (if applied.reask then proof_rejected else proof_ingested)
      else if applied.reask
      then reask_proof
      else if applied.updated
      then status_applied
      else status_ignored

  after_apply : Event → World × Option Applied → World × Result IngestError IngestAction
  after_apply event (w, none) = (w, err apply_failed)
  after_apply event (w, some applied) = (w, ok (action_for event applied))

  apply_body : Result IngestError Event → World → World × Result IngestError IngestAction
  unfolding after_apply
  apply_body (ok event) w = after_apply event (toolbox.apply_event event w)
  apply_body (err e) w = (w, err e)

  unfoldable pub read_payload : Json → Result IngestError Event
  unfolding check_txid body_of
  read_payload payload = do
    txid ← check_txid (as_str (get (codes "txid") payload))
    body_of (toolbox.event_of payload)

  unfoldable pub ingest_arc_payload : Json → World → World × Result IngestError IngestAction
  unfolding apply_body after_apply
  ingest_arc_payload payload w = apply_body (read_payload payload) w

pub data RouteReply : Type 0 where
  callback_disabled unauthorized too_large bad_json : RouteReply
  done : IngestAction → RouteReply
  bad_payload : IngestError → RouteReply

is_token : Text → Option Text → Bool
is_token expected none = false
is_token expected (some provided) = text_eq provided expected

route_reply : Result IngestError IngestAction → RouteReply
route_reply (ok action) = done action
route_reply (err e) = bad_payload e

module _ {World Event : Type 0} (toolbox : Toolbox World Event)
    (from_slice : Text → Option Json) where
  on_json : Option Json → World → World × RouteReply
  unfolding route_reply
  on_json none w = (w, bad_json)
  on_json (some payload) w =
      let (w', r) = ingest_arc_payload toolbox payload w in (w', route_reply r)

  -- `expected` is the callback token of the server's configuration.
  unfoldable pub arc_callback : Option Text → Headers → Text → World → World × RouteReply
  unfolding on_json is_token bearer or_else route_reply
  arc_callback none headers body w = (w, callback_disabled)
  arc_callback (some expected) headers body w =
      if not (is_token expected (or_else (bearer headers.authorization) headers.x_callback_token))
      then (w, unauthorized)
      else if ltb max_body (length body)
      then (w, too_large)
      else on_json (from_slice body) w
