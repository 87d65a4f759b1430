-- ===== src/Gift/Covenant.antt =====
-- The locking script of the time-locked gift, built and parsed: src/gift/covenant.rs. A script is
-- its bytes. The compiled template of src/gift/template_data.rs, which a compiler generates, is an
-- argument. A position `i` in a script is modelled as the rest of the script from there.
mod Numbers
mod Lengths
pub mod Termination
pub mod Pushes
pub mod Parse
pub mod Sound
use bsv_wallet_cli.Prelude.{
  ℕ, zero, suc, ◌+◌, ◌-◌, ◌*◌, ◌/◌, ◌%◌, ◌^◌, ◌&&◌, Bool, true, false, not, List, [], ◌∷◌, ◌++◌,
  Option, none, some, is_some, Result, ok, err, ◌>>=◌, leb, ltb, ◌==◌, if◌then◌else◌, length, take,
  drop, is_empty,
}
use bsv_wallet_cli.Prelude.Text.{strip_prefix, text_eq}

abbrev pub Bytes : Type 0
Bytes = List ℕ

-- The messages of the code's errors, one constructor each.
pub data ScriptError : Type 0 where
  recipient_length : ℕ → ScriptError
  prefix_mismatch : ScriptError
  suffix_mismatch : ScriptError
  expected_pubkey_push : ScriptError
  pubkey_out_of_range : ScriptError
  param_region_malformed : ScriptError
  unexpected_end : ScriptError
  push_out_of_range : ScriptError
  pushdata1_len_missing : ScriptError
  pushdata1_out_of_range : ScriptError
  unexpected_opcode : ℕ → ScriptError
  number_too_large : ScriptError

-- `PREFIX_HEX` and `SUFFIX_HEX`, decoded.
pub record Template : Type 0 where
  pub prefix : Bytes
  pub suffix : Bytes

pub record CovenantParams : Type 0 where
  pub recipient : Bytes
  pub lock_until : ℕ
  pub amount : ℕ

-- The rounds of `while n > 0`, on fuel: what is left of `n`, and the bytes pushed.
unfoldable pub magnitude_loop : ℕ → ℕ → Bytes → ℕ × Bytes
magnitude_loop zero n out = (n, out)
magnitude_loop (suc f) n out =
    let rest = magnitude_loop f (n / 256) (out ++ n % 256 ∷ []) in if n == 0 then (n, out) else rest

-- `out.last().unwrap() & 0x80 != 0`.
unfoldable pub top_bit_set : Bytes → Bool
top_bit_set [] = false
top_bit_set (b ∷ []) = b / 128 % 2 == 1
top_bit_set (b ∷ c ∷ bs) = top_bit_set (c ∷ bs)

unfoldable pub with_sign_byte : Bytes → Bytes
with_sign_byte out = if top_bit_set out then out ++ 0 ∷ [] else out

unfoldable pub script_num_unsigned : ℕ → Bytes
script_num_unsigned n = if n == 0 then [] else with_sign_byte (magnitude_loop 8 n []).1

abbrev direct_push : Bytes → Bytes
direct_push bytes =
    if leb (length bytes) 75 then length bytes ∷ bytes else 0x4c ∷ length bytes % 256 ∷ bytes

unfoldable pub push_data : Bytes → Bytes
push_data [] = 0 ∷ []
push_data (b ∷ []) =
    if leb 1 b && leb b 16
    then (0x50 + b) ∷ []
    else (if b == 0x81 then 0x4f ∷ [] else direct_push (b ∷ []))
push_data (b ∷ c ∷ bs) = direct_push (b ∷ c ∷ bs)

unfoldable pub push_num : ℕ → Bytes
push_num n = push_data (script_num_unsigned n)

unfoldable pub build_locking_script : Template → Bytes → ℕ → ℕ → Result ScriptError Bytes
build_locking_script t recipient lock_until amount =
    if length recipient == 33
    then ok
        (t.prefix ++ 0x21 ∷ (recipient ++ (push_num lock_until ++ (push_num amount ++ t.suffix))))
    else err (recipient_length (length recipient))

-- The loop of `decode_script_num` from index `k`: the last byte loses its sign bit. The bits joined
-- by `|=` do not overlap.
unfoldable pub decode_loop : ℕ → ℕ → Bytes → ℕ
decode_loop k v [] = v
decode_loop k v (b ∷ []) = v + b % 128 * 2 ^ (8 * k)
decode_loop k v (b ∷ c ∷ bs) = decode_loop (suc k) (v + b * 2 ^ (8 * k)) (c ∷ bs)

unfoldable pub decode_script_num : Bytes → Result ScriptError ℕ
decode_script_num bytes =
    if ltb 8 (length bytes) then err number_too_large else ok (decode_loop 0 0 bytes)

-- `script.get(i..i + len)` and the rest, or an error.
unfoldable pub get_slice : ScriptError → ℕ → Bytes → Result ScriptError (Bytes × Bytes)
get_slice e len script =
    if leb len (length script) then ok (take len script, drop len script) else err e

unfoldable pub read_data : ScriptError → ℕ → Bytes → Result ScriptError (ℕ × Bytes)
read_data e len script =
    get_slice e len script >>= λ (bytes, rest). decode_script_num bytes >>= λ v. ok (v, rest)

abbrev pub read_pushdata1 : Bytes → Result ScriptError (ℕ × Bytes)
read_pushdata1 [] = err pushdata1_len_missing
read_pushdata1 (len ∷ script) = read_data pushdata1_out_of_range len script

unfoldable pub read_push_num : Bytes → Result ScriptError (ℕ × Bytes)
read_push_num [] = err unexpected_end
read_push_num (op ∷ script) =
    if op == 0
    then ok (0, script)
    else if leb 0x51 op && leb op 0x60
    then ok (op - 0x50, script)
    else if leb 0x01 op && leb op 0x4b
    then read_data push_out_of_range op script
    else if op == 0x4c
    then read_pushdata1 script
    else err (unexpected_opcode op)

unfoldable pub starts_with : Bytes → Bytes → Bool
starts_with p script = is_some (strip_prefix p script)

unfoldable pub ends_with : Bytes → Bytes → Bool
ends_with s script =
    leb (length s) (length script) && text_eq (drop (length script - length s) script) s

unfoldable pub parse_params : Template → Bytes → Result ScriptError CovenantParams
parse_params t script = get_slice pubkey_out_of_range 33 script >>= λ (recipient, after_key).
    read_push_num after_key >>= λ (lock_until, after_lock).
    read_push_num after_lock >>= λ (amount, after_amount).
    if text_eq after_amount t.suffix
    then ok (record { recipient = recipient; lock_until = lock_until; amount = amount })
    else err param_region_malformed

abbrev pub parse_pubkey_push : Template → Bytes → Result ScriptError CovenantParams
parse_pubkey_push t [] = err expected_pubkey_push
parse_pubkey_push t (op ∷ script) =
    if op == 0x21 then parse_params t script else err expected_pubkey_push

unfoldable pub parse_locking_script : Template → Bytes → Result ScriptError CovenantParams
parse_locking_script t script =
    if not (starts_with t.prefix script)
    then err prefix_mismatch
    else if not (ends_with t.suffix script)
    then err suffix_mismatch
    else parse_pubkey_push t (drop (length t.prefix) script)
