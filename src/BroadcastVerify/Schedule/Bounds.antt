-- ===== src/BroadcastVerify/Schedule/Bounds.antt =====
-- The schedule's growth and its length.
use bsv_wallet_cli.Prelude.{
  ℕ, zero, suc, ◌+◌, ◌-◌, ◌*◌, ◌^◌, min, ◌≡◌, ◌≤◌, ◌<◌, refl, arith, ap, ◌∙◌, Bool-cases, inl, inr,
  ltb, if◌then◌else◌,
}
use native.Mathlib.Numerals.{unary_clauses}
use bsv_wallet_cli.BroadcastVerify.Schedule.{grown, delay_before_round, initial_delay}

double : (e : ℕ) → 2 ^ suc e ≡ 2 * 2 ^ e
double e = simp unary_clauses (omega arith)

power_pos : (n : ℕ) → 1 ≤ 2 ^ n
power_pos zero = omega arith
power_pos (suc n) = omega (arith, power_pos n, double n)

power-le : (e n : ℕ) → e ≤ n → 2 ^ e ≤ 2 ^ n
power-le zero n h = power_pos n
power-le (suc e) zero h = absurd (omega arith)
power-le (suc e) (suc n) h = omega (arith, power-le e n, double e, double n)

grown_below : (e : ℕ) → e ≤ 16 → grown e ≡ 250 * 2 ^ e
unfolding grown
grown_below e h = let top : 2 ^ 16 ≡ 65536 = refl in omega (arith, power-le e 16 h, top)

below_top :
    (cap round : ℕ) → round < 16 → delay_before_round cap (1 + round) ≡ min (250 * 2 ^ round) cap
unfolding delay_before_round
below_top cap round h =
    let e : min (1 + round - 1) 16 ≡ round = omega arith in
    ap (λ n. min (grown n) cap) e ∙ ap (λ n. min n cap) (grown_below round (omega arith))

doubles :
    (cap round : ℕ)
    → round < 16
    → delay_before_round cap (2 + round) ≡ min (2 * delay_before_round cap (1 + round)) cap
unfolding delay_before_round
doubles cap round h =
    let e : min (2 + round - 1) 16 ≡ suc round = omega arith in
    ap (λ n. min (grown n) cap) e
    ∙ ap (λ n. min n cap) (grown_below (suc round) (omega arith))
    ∙ omega (arith, double round, below_top cap round h)

stays :
    (cap round : ℕ)
    → 16 ≤ round
    → delay_before_round cap (2 + round) ≡ delay_before_round cap (1 + round)
unfolding delay_before_round
stays cap round h =
    let e : min (2 + round - 1) 16 ≡ min (1 + round - 1) 16 = omega arith in
    ap (λ n. min (grown n) cap) e

-- The first pause is the initial delay, or the cap below it; each of the next sixteen is double the
-- one before it, or the cap; the later ones stay the same.
pub delay_before_round_lem :
    (cap round : ℕ)
    → (delay_before_round cap 1 ≡ min initial_delay cap)
      × (delay_before_round cap (2 + round) ≡ (
          if ltb round 16
          then min (2 * delay_before_round cap (1 + round)) cap
          else delay_before_round cap (1 + round)))
delay_before_round_lem cap round = (
  below_top cap 0 (omega arith) ∙ refl,
  elim (Bool-cases (ltb round 16)) [
    | inl y ↦ simp y (doubles cap round (ground arith))
    | inr n ↦ simp n (stays cap round (ground arith))
  ],
)
