-- ===== src/SpendGate/Hold/Fault.antt =====
-- What a coin held on the header service's fault says.
use bsv_wallet_cli.Prelude.{ℕ, ◌≡◌, some, arith, true}
use bsv_wallet_cli.Prelude.Text.{Text, strip_prefix-append}
use bsv_wallet_cli.SpendGate.Hold.{
  Origin, CreatorReading, GateOptions, HeldCoin, hold_reason, service_error,
  headers_unavailable_prefix,
}

-- A coin held by `hold_reason` on a reading with the header service's fault gives that service's
-- error back, word for word.
pub service_error-hold_reason :
    (r : CreatorReading) (o : Origin) (txid : Text) (vout : ℕ) (opts : GateOptions)
    (coin : HeldCoin) {fault : Text}
    → r.fault ≡ some fault
    → hold_reason r o txid vout opts ≡ some coin.reason
    → coin.headers_fault ≡ true
    → service_error coin ≡ some fault
unfolding hold_reason service_error
service_error-hold_reason r o txid vout opts coin {fault} f h k =
    ground (arith, strip_prefix-append headers_unavailable_prefix fault)
