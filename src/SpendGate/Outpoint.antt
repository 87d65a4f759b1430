-- ===== src/SpendGate/Outpoint.antt =====
-- `parse_outpoint` of src/spend_gate.rs: an outpoint as a caller writes it. An error's message is
-- a constructor that keeps the text it quotes. The length of the transaction id counts code points
-- where the source counts bytes; the two differ only on a text that is not ASCII, which the
-- hexadecimal test refuses with the same message.
pub mod Laws
use bsv_wallet_cli.Prelude.{
  ℕ, Option, none, some, Bool, ◌&&◌, ◌||◌, Result, ok, err, ◌==◌, if◌then◌else◌, length, all,
}
use bsv_wallet_cli.Prelude.Text.{
  Text, trim, rsplit_once, is_hex_digit, to_ascii_lowercase, parse_u32,
}

pub data OutpointError : Type 0 where
  not_an_outpoint : Text → OutpointError
  txid_not_hex : Text → OutpointError
  vout_not_a_number : Text → OutpointError

abbrev pub is_separator : ℕ → Bool
is_separator c = (c == b':') || (c == b'.')

-- `txid.len() == 64` and all of its characters hexadecimal.
abbrev pub is_txid : Text → Bool
is_txid t = (length t == 64) && all is_hex_digit t

with_vout : Text → Text → Option ℕ → Result OutpointError (Text × ℕ)
with_vout text txid none = err (vout_not_a_number text)
with_vout text txid (some vout) = ok (to_ascii_lowercase txid, vout)

with_parts : Text → Option (Text × Text) → Result OutpointError (Text × ℕ)
unfolding with_vout
with_parts text none = err (not_an_outpoint text)
with_parts text (some (txid, vout)) =
    if is_txid txid then with_vout text txid (parse_u32 vout) else err (txid_not_hex text)

unfoldable pub parse_outpoint : Text → Result OutpointError (Text × ℕ)
unfolding with_parts
parse_outpoint raw = let text = trim raw in with_parts text (rsplit_once is_separator text)
