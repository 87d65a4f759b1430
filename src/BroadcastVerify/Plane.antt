-- ===== src/BroadcastVerify/Plane.antt =====
-- Which broadcaster is asked: `BroadcastPlane` of src/broadcast_verify.rs and the two readings of the
-- environment in src/services_env.rs that it follows, `arc_mode_for` and `arcade_url_for`. The
-- toolbox's mainnet Arcade URL is a parameter. A refusal is a constructor with the value it quotes.
pub mod Testnet
use bsv_wallet_cli.Prelude.{
  ℕ, Option, none, some, Bool, true, false, ◌||◌, List, [], ◌∷◌, ◌++◌, Result, ok, err, ◌>>=◌, ◌==◌,
  if◌then◌else◌, is_empty, any,
}
use bsv_wallet_cli.Prelude.Text.{Text, codes, text_eq, trim, to_ascii_lowercase}
use bsv_wallet_cli.BroadcastVerify.Probe.{SourceKind, arcade, classic_arc}

pub data Chain : Type 0 where
  main test : Chain

pub data ArcMode : Type 0 where
  arcade_mode classic_mode : ArcMode

pub data EnvError : Type 0 where
  not_a_mode : Text → EnvError
  not_a_switch : Text → EnvError
  no_testnet_arcade : EnvError

-- A value that is set and not blank.
unfoldable pub not_blank : Option Text → Option Text
not_blank none = none
not_blank (some t) = if is_empty (trim t) then none else some (trim t)

abbrev one_of : List Text → Text → Bool
one_of ws t = any (λ w. text_eq w t) ws

mode_of_switch : Option Text → Result EnvError ArcMode
mode_of_switch none = ok arcade_mode
mode_of_switch (some t) =
    if one_of (codes "1" ∷ codes "true" ∷ codes "yes" ∷ []) (to_ascii_lowercase t)
    then ok arcade_mode
    else if one_of (codes "0" ∷ codes "false" ∷ codes "no" ∷ []) (to_ascii_lowercase t)
    then ok classic_mode
    else err (not_a_switch (to_ascii_lowercase t))

mode_of : Option Text → Option Text → Result EnvError ArcMode
unfolding mode_of_switch
mode_of none switch = mode_of_switch switch
mode_of (some mode) switch =
    if text_eq (to_ascii_lowercase mode) (codes "arcade")
    then ok arcade_mode
    else if text_eq (to_ascii_lowercase mode) (codes "classic")
    then ok classic_mode
    else err (not_a_mode mode)

unfoldable pub arc_mode_for : Option Text → Option Text → Result EnvError ArcMode
unfolding mode_of
arc_mode_for arc_mode switch = mode_of (not_blank arc_mode) (not_blank switch)

is_classic : Result EnvError ArcMode → Bool
is_classic (ok classic_mode) = true
is_classic _ = false

unfoldable pub arcade_mode_enabled : Option Text → Option Text → Bool
unfolding is_classic
arcade_mode_enabled arc_mode switch =
    if is_classic (arc_mode_for arc_mode switch) then false else true

url_or_default : Text → Chain → Option Text → Result EnvError Text
url_or_default mainnet chain (some url) = ok url
url_or_default mainnet main none = ok mainnet
url_or_default mainnet test none = err no_testnet_arcade

unfoldable pub arcade_url_for : Text → Chain → Option Text → Result EnvError Text
unfolding url_or_default
arcade_url_for mainnet chain arc_url = url_or_default mainnet chain (not_blank arc_url)

unless_slash : ℕ → Text → Text
unless_slash c [] = if c == b'/' then [] else c ∷ []
unless_slash c (d ∷ t) = c ∷ d ∷ t

trim_slashes : Text → Text
unfolding unless_slash
trim_slashes [] = []
trim_slashes (c ∷ t) = unless_slash c (trim_slashes t)

unfoldable pub normalize_base : Text → Text
unfolding trim_slashes
normalize_base url = trim_slashes (trim url)

unfoldable pub taal_arc_url : Chain → Text
taal_arc_url main = codes "https://arc.taal.com"
taal_arc_url test = codes "https://arc-test.taal.com"

pub data BroadcastPlane : Type 0 where
  arcade_v2 : Text → BroadcastPlane
  classic : Text → BroadcastPlane

or_taal : Chain → Option Text → Text
or_taal chain none = taal_arc_url chain
or_taal chain (some url) = url

unfoldable pub resolve : Text → Chain → Bool → Option Text → Result EnvError BroadcastPlane
unfolding or_taal
resolve mainnet chain true arc_url = do
  url ← arcade_url_for mainnet chain arc_url
  ok (arcade_v2 (normalize_base url))
resolve mainnet chain false arc_url =
    ok (classic (normalize_base (or_taal chain (not_blank arc_url))))

unfoldable pub base : BroadcastPlane → Text
base (arcade_v2 b) = b
base (classic b) = b

unfoldable pub plane_name : BroadcastPlane → Text
plane_name (arcade_v2 b) = codes "broadcaster(arcade-v2)"
plane_name (classic b) = codes "broadcaster(arc)"

unfoldable pub plane_kind : BroadcastPlane → SourceKind
plane_kind (arcade_v2 b) = arcade
plane_kind (classic b) = classic_arc

unfoldable pub status_template : BroadcastPlane → Text
status_template (arcade_v2 b) = b ++ codes "/tx/{txid}"
status_template (classic b) = b ++ codes "/v1/tx/{txid}"
