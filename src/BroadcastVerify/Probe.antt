-- ===== src/BroadcastVerify/Probe.antt =====
-- What one source answers: `presence_of_body`, `probe` and `BroadcastVerifier::probe` of
-- src/broadcast_verify.rs. The toolbox's reading of a `txStatus` is a parameter. A body is what the
-- JSON parser finds in it; a request that fails has no response.
use bsv_wallet_cli.Prelude.{
  ℕ, suc, Option, none, some, Bool, true, false, ◌&&◌, not, ◌==◌, if◌then◌else◌, is_some,
}
use bsv_wallet_cli.Prelude.Text.{Text}
use bsv_wallet_cli.SpendGate.Store.{ℤ, pos}

pub data NetworkEvidence : Type 0 where
  seen mined : NetworkEvidence

pub data Presence : Type 0 where
  held fatal absent unknown : Presence
  present : NetworkEvidence → Presence

-- What a source's absence is worth.
pub data AbsenceAuthority : Type 0 where
  no_authority broadcaster chain_index : AbsenceAuthority

pub data SourceKind : Type 0 where
  arcade classic_arc woc_index bitails_index bananablocks_index : SourceKind

pub record StatusSource : Type 0 where
  pub name : Text
  pub url_template : Text
  pub auth : Option Text
  pub absence : AbsenceAuthority
  pub kind : SourceKind

-- The toolbox's `BroadcastStatus`.
pub data BroadcastStatus : Type 0 where
  status_seen status_mined status_rejected status_accepted status_unknown : BroadcastStatus

-- The fields that are read of a 200 body, each where it is there with its type.
pub record Body : Type 0 where
  pub confirmations : Option ℤ
  pub block_height : Option ℕ
  pub tx_status : Option Text

pub record Response : Type 0 where
  pub status : ℕ
  pub is_json : Bool
  pub body : Body

-- BananaBlocks' word for the transaction, as the toolbox's provider gives it; `missing` where its
-- answer has no row for it.
pub data BananaWord : Type 0 where
  word_mined word_known word_other missing fault : BananaWord

pub record Vocabulary : Type 0 where
  pub from_arcade_status : Text → BroadcastStatus
  pub from_arc_status : Text → BroadcastStatus

abbrev pub is_broadcaster : AbsenceAuthority → Bool
is_broadcaster broadcaster = true
is_broadcaster _ = false

abbrev pub is_chain_index : AbsenceAuthority → Bool
is_chain_index chain_index = true
is_chain_index _ = false

abbrev pub is_bananablocks : SourceKind → Bool
is_bananablocks bananablocks_index = true
is_bananablocks _ = false

abbrev is_confirmed : Option ℤ → Bool
is_confirmed (some (pos (suc n))) = true
is_confirmed _ = false

presence_of_status : AbsenceAuthority → BroadcastStatus → Presence
presence_of_status a status_seen = present seen
presence_of_status a status_mined = present mined
presence_of_status a status_rejected = if is_broadcaster a then fatal else unknown
presence_of_status a status_accepted = held
presence_of_status a status_unknown = held

presence_of_tx_status : (Text → BroadcastStatus) → AbsenceAuthority → Option Text → Presence
unfolding presence_of_status
presence_of_tx_status read a none = held
presence_of_tx_status read a (some s) = presence_of_status a (read s)

body_of_kind : Vocabulary → SourceKind → AbsenceAuthority → Body → Presence
unfolding presence_of_tx_status
body_of_kind v woc_index a b = if is_confirmed b.confirmations then present mined else present seen
body_of_kind v bananablocks_index a b = unknown
body_of_kind v bitails_index a b = if is_some b.block_height then present mined else present seen
body_of_kind v arcade a b = presence_of_tx_status v.from_arcade_status a b.tx_status
body_of_kind v classic_arc a b = presence_of_tx_status v.from_arc_status a b.tx_status

unfoldable pub presence_of_body : Vocabulary → StatusSource → Body → Presence
unfolding body_of_kind
presence_of_body v src b = body_of_kind v src.kind src.absence b

of_response : Vocabulary → StatusSource → Option Response → Presence
of_response v src none = unknown
of_response v src (some r) =
    if r.status == 200
    then presence_of_body v src r.body
    else if r.status == 404
    then (if is_broadcaster src.absence && not r.is_json then unknown else absent)
    else unknown

of_banana : Option BananaWord → Presence
of_banana (some word_mined) = present mined
of_banana (some word_known) = present seen
of_banana _ = unknown

-- BananaBlocks is read through its provider, where there is one; any other source by its URL.
unfoldable pub probe : Vocabulary → StatusSource → Option Response → Option BananaWord → Presence
unfolding of_response of_banana
probe v src response banana =
    if is_bananablocks src.kind then of_banana banana else of_response v src response
