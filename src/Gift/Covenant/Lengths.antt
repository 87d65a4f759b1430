-- ===== src/Gift/Covenant/Lengths.antt =====
-- How many bytes a script number takes.
use bsv_wallet_cli.Prelude.{
  ℕ, zero, suc, ◌*◌, ◌/◌, ◌%◌, ◌^◌, ◌≤◌, ◌<◌, ◌≡◌, max, [], ◌∷◌, ◌==◌, true, length, Bool-cases,
  inl, inr, arith,
}
use bsv_wallet_cli.Gift.Covenant.{Bytes, top_bit_set, with_sign_byte}
use bsv_wallet_cli.Gift.Covenant.Numbers.{digits, step256}
use native.Mathlib.Numerals.{unary_clauses}

length-with_sign_byte_cons_le :
    (b : ℕ) (bs : Bytes)
    → length (with_sign_byte (b ∷ bs)) ≤ suc (max 1 (length (with_sign_byte bs)))
unfolding with_sign_byte top_bit_set
length-with_sign_byte_cons_le b [] = ground arith
length-with_sign_byte_cons_le b (c ∷ bs) = ground arith

length-with_sign_byte_cons :
    (b : ℕ) (bs : Bytes)
    → 1 ≤ length (with_sign_byte bs)
    → length (with_sign_byte (b ∷ bs)) ≡ suc (length (with_sign_byte bs))
unfolding with_sign_byte top_bit_set
length-with_sign_byte_cons b [] h = ground arith
length-with_sign_byte_cons b (c ∷ bs) h = ground arith

low_step : (f n : ℕ) → n < 128 * 256 ^ suc f → n / 256 < 128 * 256 ^ f
low_step f n h = let h' = simp unary_clauses at h in omega arith

high_step : (f n : ℕ) → 128 * 256 ^ suc f ≤ n → 128 * 256 ^ f ≤ n / 256
high_step f n h = let h' = simp unary_clauses at h in omega arith

power_positive : (f : ℕ) → 1 ≤ 256 ^ f
power_positive zero = omega arith
power_positive (suc f) = simp unary_clauses (omega (arith, power_positive f))

no_zero : (f n : ℕ) → 128 * 256 ^ suc f ≤ n → n == 0 ≡ true → ⊥
no_zero f n l z = let p = power_positive (suc f) in ground arith

-- The loop's digits and the sign byte, below half the range and above it.
pub length_low : (f n : ℕ) → n < 128 * 256 ^ f → length (with_sign_byte (digits (suc f) n)) ≤ suc f
unfolding digits
length_low zero n h = unfold with_sign_byte top_bit_set in ground arith
length_low (suc f) n h = elim (Bool-cases (n == 0)) [
  | inl z ↦ simp z (unfold with_sign_byte top_bit_set in omega arith)
  | inr p ↦ simp p (
      omega (
        arith,
        length-with_sign_byte_cons_le (n % 256) (digits (suc f) (n / 256)),
        length_low f (n / 256) (low_step f n h),
      ))
]

pub length_high :
    (f n : ℕ)
    → 128 * 256 ^ f ≤ n
    → n < 256 ^ suc f
    → length (with_sign_byte (digits (suc f) n)) ≡ suc (suc f)
unfolding digits
length_high zero n l h = unfold with_sign_byte top_bit_set in ground arith
length_high (suc f) n l h =
    let ih = length_high f (n / 256) (high_step f n l) (step256 (suc f) n h) in
    elim (Bool-cases (n == 0)) [
      | inl z ↦ elim (no_zero f n l z) [ ]
      | inr p ↦ simp p (
          omega (
            arith,
            length-with_sign_byte_cons (n % 256) (digits (suc f) (n / 256)) (omega (arith, ih)),
            ih,
          ))
    ]
