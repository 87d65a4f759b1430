-- ===== src/Gift/Covenant/Termination.antt =====
-- The rounds of the loop over a number's bytes.
use bsv_wallet_cli.Prelude.{
  ℕ, zero, suc, ◌/◌, ◌%◌, ◌^◌, ◌≤◌, ◌<◌, ◌≡◌, refl, [], ◌∷◌, ◌++◌, ◌==◌, Bool-cases, inl, inr,
  arith,
}
use bsv_wallet_cli.Gift.Covenant.{Bytes, magnitude_loop}
use bsv_wallet_cli.Gift.Covenant.Numbers.{step256, magnitude_loop-rest}

below_one : (n : ℕ) → n < 256 ^ 0 → n ≡ 0
below_one n h = omega arith

-- More rounds than the number needs change nothing.
magnitude_loop-enough :
    (f g n : ℕ) (out : Bytes)
    → n < 256 ^ f
    → f ≤ g
    → magnitude_loop g n out ≡ magnitude_loop f n out
unfolding magnitude_loop
magnitude_loop-enough zero zero n out h l = refl
magnitude_loop-enough zero (suc g) n out h l = rw (below_one n h) refl
magnitude_loop-enough (suc f) zero n out h l = elim l [ ]
magnitude_loop-enough (suc f) (suc g) n out h l = elim (Bool-cases (n == 0)) [
  | inl z ↦ simp z refl
  | inr p ↦
      simp p (
        magnitude_loop-enough f g (n / 256) (out ++ n % 256 ∷ []) (step256 f n h)
          (omega (arith, l)))
]

-- Eight rounds of `while n > 0` bring every 64-bit number to zero, and the bytes that the loop has
-- then pushed are the same for any larger number of rounds.
pub magnitude_loop-terminates :
    (n fuel : ℕ)
    → n < 2 ^ 64
    → 8 ≤ fuel
    → ((magnitude_loop fuel n []).0 ≡ 0) × (magnitude_loop fuel n [] ≡ magnitude_loop 8 n [])
magnitude_loop-terminates n fuel h l =
    let e = magnitude_loop-enough 8 fuel n [] (omega arith) l in
    (rw e (magnitude_loop-rest 8 n [] (omega arith)), e)
