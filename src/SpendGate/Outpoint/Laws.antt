-- ===== src/SpendGate/Outpoint/Laws.antt =====
-- Parsing an outpoint: what is accepted, and what is printed.
use bsv_wallet_cli.Prelude.{
  ℕ, suc, ◌<◌, ◌≡◌, refl, ap, ◌∙◌, true, false, [], ◌∷◌, ◌++◌, some, none, Option, ok, arith,
  length, all, Bool-cases, inl, inr, append_assoc, All-map,
}
use bsv_wallet_cli.Prelude.Text.{
  Text, trim, trim_end, trim_start_solid, trim_end_solid, is_whitespace, rsplit_once,
  rsplit_once-append, is_hex_digit, to_ascii_lowercase, lower, decimal, decimal_last,
  decimal_are_digits, is_digit, parse_u32, parse_u32-decimal, parse_u32-lt, u32_mod,
}
use bsv_wallet_cli.SpendGate.Outpoint.{is_separator, is_txid, with_vout, with_parts, parse_outpoint}

-- The text of an outpoint, with either separator.
abbrev pub print_outpoint : Text → ℕ → ℕ → Text
print_outpoint txid sep vout = txid ++ sep ∷ decimal vout

lower-lower : (c : ℕ) → lower (lower c) ≡ lower c
unfolding lower
lower-lower c = ground arith

pub to_ascii_lowercase_idem :
    (t : Text) → to_ascii_lowercase (to_ascii_lowercase t) ≡ to_ascii_lowercase t
unfolding to_ascii_lowercase
to_ascii_lowercase_idem [] = refl
to_ascii_lowercase_idem (c ∷ t) = cc (lower-lower c, to_ascii_lowercase_idem t)

length-lowercase : (t : Text) → length (to_ascii_lowercase t) ≡ length t
unfolding to_ascii_lowercase
length-lowercase [] = refl
length-lowercase (c ∷ t) = ap suc (length-lowercase t)

hex-lower : (c : ℕ) → is_hex_digit (lower c) ≡ is_hex_digit c
unfolding is_hex_digit lower
hex-lower c = ground arith

all_hex-lowercase : (t : Text) → all is_hex_digit (to_ascii_lowercase t) ≡ all is_hex_digit t
unfolding to_ascii_lowercase
all_hex-lowercase [] = refl
all_hex-lowercase (c ∷ t) = cc (hex-lower c, all_hex-lowercase t)

digit_not_separator : (c : ℕ) → is_digit c ≡ true → is_separator c ≡ false
unfolding is_digit
digit_not_separator c h = ground arith

digit_not_blank : (c : ℕ) → is_digit c ≡ true → is_whitespace c ≡ false
unfolding is_digit is_whitespace
digit_not_blank c h = ground arith

hex_not_blank : (c : ℕ) → is_hex_digit c ≡ true → is_whitespace c ≡ false
unfolding is_hex_digit is_whitespace
hex_not_blank c h = ground arith

-- A text that starts with a hexadecimal digit and ends with a digit has nothing to trim.
trim-print :
    (c : ℕ) (t : Text) (sep vout : ℕ)
    → is_hex_digit c ≡ true
    → trim (print_outpoint (c ∷ t) sep vout) ≡ print_outpoint (c ∷ t) sep vout
trim-print c t sep vout h =
    let (s, d, e, k) = decimal_last vout in
    ap trim_end (trim_start_solid c (t ++ sep ∷ decimal vout) (hex_not_blank c h))
    ∙ rw e (
        rw (← append_assoc {0} (c ∷ t) (sep ∷ s) (d ∷ []))
          (trim_end_solid ((c ∷ t) ++ sep ∷ s) d (digit_not_blank d k)))

print_parts :
    (text txid : Text) (sep vout : ℕ)
    → is_txid txid ≡ true
    → is_separator sep ≡ true
    → vout < u32_mod
    → with_parts text (rsplit_once is_separator (print_outpoint txid sep vout))
      ≡ ok (to_ascii_lowercase txid, vout)
unfolding with_parts
print_parts text txid sep vout ht hs hv =
    rw
      (rsplit_once-append is_separator txid (decimal vout) sep hs (
        All-map (λ c. is_digit c ≡ true) (λ c. is_separator c ≡ false) digit_not_separator
          (decimal vout) (decimal_are_digits vout)))
      (rw (ht, parse_u32-decimal vout hv))

-- A transaction id of 64 hexadecimal digits, `:` or `.`, and a 32-bit number in decimal are read
-- back as the id in lower case and the number.
pub parse_outpoint-print :
    (txid : Text) (sep vout : ℕ)
    → is_txid txid ≡ true
    → is_separator sep ≡ true
    → vout < u32_mod
    → parse_outpoint (print_outpoint txid sep vout) ≡ ok (to_ascii_lowercase txid, vout)
unfolding parse_outpoint
parse_outpoint-print [] sep vout ht hs hv = absurd (ground arith)
parse_outpoint-print (c ∷ t) sep vout ht hs hv =
    rw (trim-print c t sep vout (ground arith)) (print_parts _ (c ∷ t) sep vout ht hs hv)

-- What an outpoint must be for the rest of the gate.
pub record IsOutpoint (coin : Text × ℕ) : Type 0 where
  pub hex : is_txid coin.0 ≡ true
  pub lowercase : to_ascii_lowercase coin.0 ≡ coin.0
  pub u32 : coin.1 < u32_mod

with_vout-IsOutpoint :
    (text txid vout : Text) (r : Option ℕ) (coin : Text × ℕ)
    → is_txid txid ≡ true
    → r ≡ parse_u32 vout
    → with_vout text txid r ≡ ok coin
    → IsOutpoint coin
unfolding with_vout
with_vout-IsOutpoint text txid vout none coin ht e h = cc
with_vout-IsOutpoint text txid vout (some n) coin ht e h = ground (
  arith,
  parse_u32-lt vout {n = n},
  to_ascii_lowercase_idem txid,
  length-lowercase txid,
  all_hex-lowercase txid,
)

with_parts-IsOutpoint :
    (text : Text) (parts : Option (Text × Text)) (coin : Text × ℕ)
    → with_parts text parts ≡ ok coin
    → IsOutpoint coin
unfolding with_parts
with_parts-IsOutpoint text none coin h = cc
with_parts-IsOutpoint text (some (txid, vout)) coin h = elim (Bool-cases (is_txid txid)) [
  | inl t ↦ with_vout-IsOutpoint text txid vout (parse_u32 vout) coin t refl (rw t at h)
  | inr f ↦ absurd (cc (rw f at h))
]

-- Whatever the text, an accepted outpoint is 64 lower-case hexadecimal digits and a 32-bit number.
pub parse_outpoint-IsOutpoint :
    (raw : Text) (coin : Text × ℕ) → parse_outpoint raw ≡ ok coin → IsOutpoint coin
unfolding parse_outpoint
parse_outpoint-IsOutpoint raw coin h =
    with_parts-IsOutpoint (trim raw) (rsplit_once is_separator (trim raw)) coin h
