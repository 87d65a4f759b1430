-- ===== src/BroadcastVerify/Schedule.antt =====
-- When the rounds run: `delay_before_round` and `absence_window` of src/broadcast_verify.rs, in
-- milliseconds. `cap` is the configured delay; a `u32` or a `u64` is a number, its limits written out.
pub mod Bounds
use bsv_wallet_cli.Prelude.{ℕ, zero, suc, ◌+◌, ◌-◌, ◌*◌, ◌^◌, min}

abbrev pub default_attempts : ℕ
default_attempts = 14

abbrev pub default_delay : ℕ
default_delay = 2500

abbrev pub initial_delay : ℕ
initial_delay = 250

abbrev pub probe_timeout : ℕ
probe_timeout = 5000

abbrev pub u64_top : ℕ
u64_top = 18446744073709551615

-- `INITIAL_DELAY_MS.saturating_mul(1u64 << exponent)`.
unfoldable pub grown : ℕ → ℕ
grown exponent = min (initial_delay * 2 ^ exponent) u64_top

unfoldable pub delay_before_round : ℕ → ℕ → ℕ
delay_before_round cap round = min (grown (min (round - 1) 16)) cap

-- The pauses before the rounds 1 to `n`.
unfoldable pub pauses : ℕ → ℕ → ℕ
pauses cap zero = 0
pauses cap (suc n) = pauses cap n + delay_before_round cap (suc n)

unfoldable pub absence_window : ℕ → ℕ → ℕ
absence_window cap attempts = pauses cap (attempts - 1) + probe_timeout
