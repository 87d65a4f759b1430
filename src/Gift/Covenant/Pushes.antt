-- ===== src/Gift/Covenant/Pushes.antt =====
-- The pushes of numbers, and what reading them gives.
use bsv_wallet_cli.Prelude.{
  ℕ, ◌%◌, ◌^◌, ◌≤◌, ◌<◌, ◌≡◌, refl, ap, ◌∙◌, true, false, [], ◌∷◌, ◌++◌, ok, err, ◌>>=◌, leb, ◌==◌,
  length, length-append, take, drop, Bool-cases, ==_iff, ◌&&◌, inl, inr, arith,
}
use bsv_wallet_cli.Gift.Covenant.{
  Bytes, ScriptError, number_too_large, push_out_of_range, top_bit_set, with_sign_byte,
  script_num_unsigned, push_data, push_num, decode_loop, decode_script_num, get_slice, read_data,
  read_push_num,
}
use bsv_wallet_cli.Gift.Covenant.Numbers.{
  digits, digits-zero, magnitude_loop-digits, digits-zero, value-digits, unsigned_value,
  decode_loop-value, digits_are_bytes, unsigned_value-with_sign_byte, top_bit_set-with_sign_byte,
}
use bsv_wallet_cli.Gift.Covenant.Lengths.{length_low, length_high}

pub take-append : (xs ys : Bytes) → take (length xs) (xs ++ ys) ≡ xs
take-append [] ys = refl
take-append (x ∷ xs) ys = ap (λ r. x ∷ r) (take-append xs ys)

pub drop-append : (xs ys : Bytes) → drop (length xs) (xs ++ ys) ≡ ys
drop-append [] ys = refl
drop-append (x ∷ xs) ys = drop-append xs ys

pub get_slice-append :
    (e : ScriptError) (xs ys : Bytes) → get_slice e (length xs) (xs ++ ys) ≡ ok (xs, ys)
unfolding get_slice
get_slice-append e xs ys =
    rw (length-append xs ys) (rw (take-append xs ys) (rw (drop-append xs ys) (ground arith)))

no_sign : (b : ℕ) → top_bit_set (b ∷ []) ≡ false → b == 0x81 ≡ true → ⊥
unfolding top_bit_set
no_sign b t p = ground arith

no_nine : (k : ℕ) → k ≡ 9 → k < 9 → ⊥
no_nine k h l = omega arith

read_data-append :
    (e : ScriptError) (xs ys : Bytes)
    → read_data e (length xs) (xs ++ ys) ≡ decode_script_num xs >>= (λ v. ok (v, ys))
unfolding read_data
read_data-append e xs ys = rw (get_slice-append e xs ys) refl

decode_script_num-small :
    (bs : Bytes) → length bs ≤ 8 → decode_script_num bs ≡ ok (unsigned_value bs)
unfolding decode_script_num
decode_script_num-small bs h = rw (decode_loop-value 0 0 bs) (ground arith)

read_push_num-op :
    (op : ℕ) (s : Bytes)
    → 1 ≤ op
    → op ≤ 75
    → read_push_num (op ∷ s) ≡ read_data push_out_of_range op s
unfolding read_push_num
read_push_num-op op s l h = ground arith

push_data-direct :
    (b c : ℕ) (bs : Bytes)
    → length (b ∷ c ∷ bs) ≤ 75
    → push_data (b ∷ c ∷ bs) ≡ length (b ∷ c ∷ bs) ∷ b ∷ c ∷ bs
unfolding push_data
push_data-direct b c bs h = ground arith

-- Two bytes or more are pushed under their count, and read as such.
read_push_num-direct :
    (b c : ℕ) (bs rest : Bytes)
    → length (b ∷ c ∷ bs) ≤ 75
    → read_push_num (push_data (b ∷ c ∷ bs) ++ rest)
      ≡ decode_script_num (b ∷ c ∷ bs) >>= (λ v. ok (v, rest))
read_push_num-direct b c bs rest h = rw (push_data-direct b c bs h) (
    read_push_num-op (length (b ∷ c ∷ bs)) ((b ∷ c ∷ bs) ++ rest) (omega arith) h
    ∙ read_data-append push_out_of_range (b ∷ c ∷ bs) rest)

read_push_num-one : (b : ℕ) (rest : Bytes) → read_push_num (1 ∷ b ∷ rest) ≡ ok (b % 128, rest)
unfolding read_push_num read_data get_slice decode_script_num decode_loop
read_push_num-one b rest = ground arith

read_push_num-byte :
    (b : ℕ) (rest : Bytes)
    → top_bit_set (b ∷ []) ≡ false
    → read_push_num (push_data (b ∷ []) ++ rest) ≡ ok (b % 128, rest)
unfolding push_data top_bit_set
read_push_num-byte b rest t = elim (Bool-cases (leb 1 b && leb b 16)) [
  | inl y ↦ simp y (unfold read_push_num in ground arith)
  | inr n ↦ simp n (elim (Bool-cases (b == 0x81)) [
    | inl p ↦ elim (no_sign b t p) [ ]
    | inr q ↦ simp q (read_push_num-one b rest)
  ])
]

read_push_num-push_data :
    (bs rest : Bytes)
    → length bs ≤ 8
    → top_bit_set bs ≡ false
    → read_push_num (push_data bs ++ rest) ≡ ok (unsigned_value bs, rest)
read_push_num-push_data [] rest l t = unfold push_data read_push_num unsigned_value in refl
read_push_num-push_data (b ∷ []) rest l t = unfold unsigned_value in read_push_num-byte b rest t
read_push_num-push_data (b ∷ c ∷ bs) rest l t =
    read_push_num-direct b c bs rest (omega (arith, l))
    ∙ rw (decode_script_num-small (b ∷ c ∷ bs) l) refl

read_push_num-long :
    (bs rest : Bytes) → length bs ≡ 9 → read_push_num (push_data bs ++ rest) ≡ err number_too_large
unfolding decode_script_num
read_push_num-long [] rest l = elim (no_nine 0 l (omega arith)) [ ]
read_push_num-long (b ∷ []) rest l = elim (no_nine 1 l (omega arith)) [ ]
read_push_num-long (b ∷ c ∷ bs) rest l =
    read_push_num-direct b c bs rest (omega (arith, l)) ∙ rw l refl

script_num_unsigned-digits : (n : ℕ) → script_num_unsigned n ≡ with_sign_byte (digits 8 n)
unfolding script_num_unsigned
script_num_unsigned-digits n = elim (Bool-cases (n == 0)) [
  | inl z ↦
      simp z
        (rw ((==_iff n 0).0 z) (rw (digits-zero 8) (unfold with_sign_byte top_bit_set in refl)))
  | inr p ↦ simp p (ap with_sign_byte (magnitude_loop-digits 8 n []))
]

script_num_unsigned-value : (n : ℕ) → n < 2 ^ 64 → unsigned_value (script_num_unsigned n) ≡ n
script_num_unsigned-value n h = rw (script_num_unsigned-digits n) (
    unsigned_value-with_sign_byte (digits 8 n) (digits_are_bytes 8 n)
    ∙ value-digits 8 n (omega arith))

-- A number below 2^63 that the covenant pushes is read back from the script as it was, with what
-- follows it.
pub read_push_num-push_num :
    (n : ℕ) (rest : Bytes) → n < 2 ^ 63 → read_push_num (push_num n ++ rest) ≡ ok (n, rest)
unfolding push_num
read_push_num-push_num n rest h =
    read_push_num-push_data (script_num_unsigned n) rest
      (rw (script_num_unsigned-digits n) (length_low 7 n (omega arith)))
      (rw (script_num_unsigned-digits n) (top_bit_set-with_sign_byte (digits 8 n)))
    ∙ rw (script_num_unsigned-value n (omega arith)) refl

-- A number from 2^63 on takes nine bytes, and what the covenant pushes of it is refused on reading.
pub read_push_num-push_num_refused :
    (n : ℕ) (rest : Bytes)
    → 2 ^ 63 ≤ n
    → n < 2 ^ 64
    → read_push_num (push_num n ++ rest) ≡ err number_too_large
unfolding push_num
read_push_num-push_num_refused n rest l h =
    read_push_num-long (script_num_unsigned n) rest
      (rw (script_num_unsigned-digits n) (length_high 7 n (omega arith) (omega arith)))
