-- ===== src/BroadcastVerify/Plane/Testnet.antt =====
-- The plane of a testnet wallet.
use bsv_wallet_cli.Prelude.{◌≡◌, refl, Option, none, some, Bool, true, false}
use bsv_wallet_cli.Prelude.Text.{Text}
use bsv_wallet_cli.BroadcastVerify.Plane.{test, resolve, arcade_url_for, url_or_default, not_blank}

url_or_default_test :
    (mainnet other : Text) (url : Option Text)
    → url_or_default mainnet test url ≡ url_or_default other test url
unfolding url_or_default
url_or_default_test mainnet other none = refl
url_or_default_test mainnet other (some url) = refl

-- In either mode and whatever `ARC_URL` is, a testnet wallet's plane, or its refusal, does not depend
-- on the mainnet Arcade's URL: only `ARC_URL` itself can lead it there.
pub resolve_test :
    (mainnet other : Text) (mode : Bool) (arc_url : Option Text)
    → resolve mainnet test mode arc_url ≡ resolve other test mode arc_url
unfolding resolve arcade_url_for
resolve_test mainnet other true arc_url = rw (url_or_default_test mainnet other (not_blank arc_url))
resolve_test mainnet other false arc_url = refl
