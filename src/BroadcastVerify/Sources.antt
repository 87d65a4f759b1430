-- ===== src/BroadcastVerify/Sources.antt =====
-- The sources that the verifier asks, in their order: `build_sources` of src/broadcast_verify.rs, with
-- the bases of the chain indexes (`woc_base` of src/explorers.rs).
pub mod Layout
use bsv_wallet_cli.Prelude.{
  Option, none, some, Bool, true, false, not, List, [], ◌∷◌, ◌++◌, if◌then◌else◌,
}
use bsv_wallet_cli.Prelude.Text.{Text, codes, text_eq}
use bsv_wallet_cli.BroadcastVerify.Probe.{
  AbsenceAuthority, no_authority, broadcaster, chain_index, SourceKind, classic_arc, woc_index,
  bitails_index, bananablocks_index, StatusSource,
}
use bsv_wallet_cli.BroadcastVerify.Plane.{
  Chain, main, test, BroadcastPlane, arcade_v2, classic, base, plane_name, plane_kind,
  status_template, normalize_base, taal_arc_url,
}

unfoldable pub woc_base : Chain → Text
woc_base main = codes "https://api.whatsonchain.com/v1/bsv/main"
woc_base test = codes "https://api.whatsonchain.com/v1/bsv/test"

unfoldable pub bitails_base : Chain → Text
bitails_base main = codes "https://api.bitails.io"
bitails_base test = codes "https://test-api.bitails.io"

unfoldable pub gorillapool_arc_url : Chain → Option Text
gorillapool_arc_url main = some (codes "https://arc.gorillapool.io")
gorillapool_arc_url test = none

-- Arcade's status read has no key.
abbrev plane_auth : BroadcastPlane → Option Text → Option Text
plane_auth (arcade_v2 b) key = none
plane_auth (classic b) key = key

unfoldable pub broadcaster_source : BroadcastPlane → Option Text → StatusSource
broadcaster_source plane key = record {
  name = plane_name plane;
  url_template = status_template plane;
  auth = plane_auth plane key;
  absence = broadcaster;
  kind = plane_kind plane;
}

unfoldable pub woc_source : Chain → StatusSource
woc_source chain = record {
  name = codes "whatsonchain";
  url_template = woc_base chain ++ codes "/tx/hash/{txid}";
  auth = none;
  absence = chain_index;
  kind = woc_index;
}

unfoldable pub bitails_source : Chain → StatusSource
bitails_source chain = record {
  name = codes "bitails";
  url_template = bitails_base chain ++ codes "/tx/{txid}";
  auth = none;
  absence = chain_index;
  kind = bitails_index;
}

unfoldable pub bananablocks_source : Text → StatusSource
bananablocks_source b = record {
  name = codes "bananablocks";
  url_template = normalize_base b ++ codes "/tx/{txid}";
  auth = none;
  absence = chain_index;
  kind = bananablocks_index;
}

unfoldable pub bananablocks_sources : Option Text → List StatusSource
bananablocks_sources none = []
bananablocks_sources (some b) = bananablocks_source b ∷ []

-- A store that is not the broadcaster itself.
unfoldable pub store_source : BroadcastPlane → Text → Text → Option Text → List StatusSource
store_source plane name url key =
    if not (text_eq (normalize_base url) (base plane))
    then record {
      name = name;
      url_template = url ++ codes "/v1/tx/{txid}";
      auth = key;
      absence = no_authority;
      kind = classic_arc;
    }
      ∷ []
    else []

unfoldable pub gorillapool_sources : BroadcastPlane → Option Text → List StatusSource
gorillapool_sources plane none = []
gorillapool_sources plane (some url) = store_source plane (codes "arc-gorillapool") url none

unfoldable pub taal_sources : Chain → BroadcastPlane → Option Text → List StatusSource
taal_sources chain plane none = []
taal_sources chain plane (some key) =
    store_source plane (codes "arc-taal") (taal_arc_url chain) (some key)

unfoldable pub build_sources :
    Chain → BroadcastPlane → Option Text → Option Text → List StatusSource
build_sources chain plane taal_key bananablocks_base =
    broadcaster_source plane taal_key
    ∷ woc_source chain
    ∷ bitails_source chain
    ∷ (bananablocks_sources bananablocks_base
        ++ (gorillapool_sources plane (gorillapool_arc_url chain)
            ++ taal_sources chain plane taal_key))
