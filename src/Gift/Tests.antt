-- ===== src/Gift/Tests.antt =====
-- The gift covenant's theorems at concrete scripts.
use bsv_wallet_cli.Prelude.{◌≡◌, ◌^◌, ◌-◌, refl, [], ◌∷◌, ◌++◌, ok, err, ◌>>=◌, arith}
use bsv_wallet_cli.Prelude.Text.{strip_prefix, text_eq}
use bsv_wallet_cli.Gift.Covenant.{
  Bytes, Template, CovenantParams, number_too_large, magnitude_loop, build_locking_script, push_num,
  read_push_num, push_data, script_num_unsigned, with_sign_byte, top_bit_set, starts_with,
  ends_with, parse_params, read_data, get_slice, decode_script_num, decode_loop,
  parse_locking_script,
}
use bsv_wallet_cli.Gift.Covenant.Termination.{magnitude_loop-terminates}
use bsv_wallet_cli.Gift.Covenant.Pushes.{read_push_num-push_num_refused}
use bsv_wallet_cli.Gift.Covenant.Parse.{parse_locking_script-build_locking_script}
use bsv_wallet_cli.Gift.Covenant.Sound.{Shape, parse_locking_script-Shape}

abbrev template : Template
template = record { prefix = 0x97 ∷ 0x01 ∷ []; suffix = 0x68 ∷ 0xac ∷ [] }

abbrev eight_bytes : Bytes
eight_bytes = 11 ∷ 22 ∷ 33 ∷ 44 ∷ 55 ∷ 66 ∷ 77 ∷ 255 ∷ []

abbrev key : Bytes
key = 2 ∷ (eight_bytes ++ (eight_bytes ++ (eight_bytes ++ eight_bytes)))

abbrev gift_script : Bytes
gift_script =
    0x97
    ∷ 0x01
    ∷ 0x21
    ∷ (key ++ (4 ∷ 0x00 ∷ 0x46 ∷ 0xc3 ∷ 0x23 ∷ 2 ∷ 0xd0 ∷ 0x07 ∷ 0x68 ∷ 0xac ∷ []))

abbrev gift : CovenantParams
gift = record { recipient = key; lock_until = 600000000; amount = 2000 }

magnitude_loop-terminates_example :
    ((magnitude_loop 20 (2 ^ 64 - 1) []).0 ≡ 0)
    × (magnitude_loop 20 (2 ^ 64 - 1) [] ≡ magnitude_loop 8 (2 ^ 64 - 1) [])
magnitude_loop-terminates_example =
    magnitude_loop-terminates (2 ^ 64 - 1) 20 (omega arith) (omega arith)

read_push_num-push_num_refused_example :
    read_push_num (push_num (2 ^ 63) ++ template.suffix) ≡ err number_too_large
read_push_num-push_num_refused_example =
    read_push_num-push_num_refused (2 ^ 63) template.suffix (omega arith) (omega arith)

parse_locking_script-build_locking_script_example :
    (build_locking_script template key 600000000 2000 >>= (λ s. parse_locking_script template s))
    ≡ ok gift
parse_locking_script-build_locking_script_example =
    parse_locking_script-build_locking_script template key 600000000 2000 refl (omega arith)
      (omega arith)

builds_gift_script : build_locking_script template key 600000000 2000 ≡ ok gift_script
unfolding build_locking_script push_num push_data script_num_unsigned with_sign_byte top_bit_set
    magnitude_loop
builds_gift_script = refl

gift_script_parses : parse_locking_script template gift_script ≡ ok gift
unfolding parse_locking_script starts_with ends_with parse_params read_push_num read_data get_slice
    decode_script_num decode_loop strip_prefix text_eq
gift_script_parses = refl

parse_locking_script-Shape_example : Shape template gift_script gift
parse_locking_script-Shape_example =
    parse_locking_script-Shape template gift_script gift gift_script_parses
