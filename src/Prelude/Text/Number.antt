-- ===== src/Prelude/Text/Number.antt =====
-- Decimal numbers: `format!("{n}")` and `str::parse::<u32>`.
use Prim.Native.Nat.{ℕ, zero, suc, ◌+◌, ◌-◌, ◌*◌, ◌/◌, ◌%◌, ◌<◌}
use mathlib.Core.Path.{◌≡◌, refl, sym, ap, ◌∙◌}
use mathlib.Core.Logic.{inl, inr}
use mathlib.Core.Bool.{Bool, true, ◌&&◌}
use mathlib.Core.Option.{Option, none, some}
use mathlib.Core.List.{List, [], ◌∷◌, ◌++◌}
use native.Mathlib.Omega.{arith}
use bsv_wallet_cli.Prelude.Tests.{ltb, leb, ◌==◌, if◌then◌else◌, Bool-cases}
use bsv_wallet_cli.Prelude.Lists.{All, All-concat}

abbrev pub u32_mod : ℕ
u32_mod = 4294967296

unfoldable pub is_digit : ℕ → Bool
is_digit c = leb b'0' c && leb c b'9'

-- The digits of `n`, with fuel above `n`.
digits : ℕ → ℕ → List ℕ
digits zero n = []
digits (suc f) n =
    let rest = digits f (n / 10) in if ltb n 10 then (48 + n) ∷ [] else rest ++ (48 + n % 10) ∷ []

unfoldable pub decimal : ℕ → List ℕ
unfolding digits
decimal n = digits (suc n) n

-- Each digit is checked, and each step for overflow.
pub parse_digits : ℕ → List ℕ → Option ℕ
parse_digits acc [] = some acc
parse_digits acc (c ∷ s) =
    let acc' = acc * 10 + (c - 48) in
    let rest = parse_digits acc' s in if is_digit c && ltb acc' u32_mod then rest else none

-- A leading `+` is taken; an empty text, or a sign alone, is refused.
unfoldable pub parse_u32 : List ℕ → Option ℕ
unfolding parse_digits is_digit
parse_u32 [] = none
parse_u32 (c ∷ []) = parse_digits 0 (c ∷ [])
parse_u32 (c ∷ d ∷ s) =
    let rest = parse_digits 0 (d ∷ s) in if c == b'+' then rest else parse_digits 0 (c ∷ d ∷ s)

parse_digits-concat :
    (acc n : ℕ) (s : List ℕ) (c : ℕ)
    → parse_digits acc s ≡ some n
    → is_digit c ≡ true
    → n * 10 + (c - 48) < u32_mod
    → parse_digits acc (s ++ c ∷ []) ≡ some (n * 10 + (c - 48))
unfolding parse_digits
parse_digits-concat acc n [] c h d b = ground arith
parse_digits-concat acc n (x ∷ s) c h d b =
    ground (arith, parse_digits-concat (acc * 10 + (x - 48)) n s c)

parse_digits-digits : (f n : ℕ) → n < f → n < u32_mod → parse_digits 0 (digits f n) ≡ some n
unfolding digits
parse_digits-digits zero n h b = elim h [ ]
parse_digits-digits (suc f) n h b = elim (Bool-cases (ltb n 10)) [
  | inl small ↦ rw small (unfold parse_digits is_digit in ground arith)
  | inr big ↦ rw big (
      parse_digits-concat 0 (n / 10) (digits f (n / 10)) (48 + n % 10)
        (parse_digits-digits f (n / 10) (ground arith) (ground arith))
        (unfold is_digit in ground arith) (ground arith)
      ∙ ap some (omega arith))
]

digits_are_digits : (f n : ℕ) → All (λ c. is_digit c ≡ true) (digits f n)
unfolding digits
digits_are_digits zero n = tt
digits_are_digits (suc f) n = elim (Bool-cases (ltb n 10)) [
  | inl small ↦ rw small (unfold is_digit in ground arith, tt)
  | inr big ↦ rw big (
      All-concat (λ c. is_digit c ≡ true) (digits f (n / 10)) (digits_are_digits f (n / 10))
        (unfold is_digit in ground arith))
]

pub decimal_are_digits : (n : ℕ) → All (λ c. is_digit c ≡ true) (decimal n)
unfolding decimal
decimal_are_digits n = digits_are_digits (suc n) n

-- A printed number is some digits and a last digit.
pub decimal_last :
    (n : ℕ) → (s : List ℕ) × (d : ℕ) × (decimal n ≡ s ++ d ∷ []) × (is_digit d ≡ true)
unfolding decimal is_digit
decimal_last n = elim (Bool-cases (ltb n 10)) [
  | inl small ↦ ([], 48 + n, rw small, ground arith)
  | inr big ↦ (digits n (n / 10), 48 + n % 10, rw big, ground arith)
]

plus_no_digit :
    (c d : ℕ) (s : List ℕ) → is_digit c ≡ true → parse_u32 (c ∷ d ∷ s) ≡ parse_digits 0 (c ∷ d ∷ s)
unfolding parse_u32
plus_no_digit c d s h = ground arith

-- A text of digits, not empty, has no sign to take off.
parse_u32-digits :
    (s : List ℕ) (d : ℕ)
    → All (λ c. is_digit c ≡ true) (s ++ d ∷ [])
    → parse_u32 (s ++ d ∷ []) ≡ parse_digits 0 (s ++ d ∷ [])
unfolding parse_u32
parse_u32-digits [] d h = refl
parse_u32-digits (c ∷ []) d h = plus_no_digit c d [] h.0
parse_u32-digits (c ∷ x ∷ s) d h = plus_no_digit c x (s ++ d ∷ []) h.0

-- A 32-bit number is parsed back from its decimal text.
pub parse_u32-decimal : (n : ℕ) → n < u32_mod → parse_u32 (decimal n) ≡ some n
parse_u32-decimal n b =
    let (s, d, e, _) = decimal_last n in
    let h = rw e at (decimal_are_digits n) in
    (ap parse_u32 e ∙ parse_u32-digits s d h ∙ ap (parse_digits 0) (sym e))
    ∙ (unfold decimal in parse_digits-digits (suc n) n (omega arith) b)

-- What parses is a 32-bit number.
pub parse_digits-lt :
    (acc : ℕ) (s : List ℕ) {n : ℕ} → acc < u32_mod → parse_digits acc s ≡ some n → n < u32_mod
unfolding parse_digits
parse_digits-lt acc [] b h = ground arith
parse_digits-lt acc (c ∷ s) {n} b h =
    ground (arith, parse_digits-lt (acc * 10 + (c - 48)) s {n = n})

pub parse_u32-lt : (s : List ℕ) {n : ℕ} → parse_u32 s ≡ some n → n < u32_mod
unfolding parse_u32
parse_u32-lt [] h = cc
parse_u32-lt (c ∷ []) h = parse_digits-lt 0 (c ∷ []) (omega arith) h
parse_u32-lt (c ∷ d ∷ s) {n} h = elim (Bool-cases (c == b'+')) [
  | inl p ↦ parse_digits-lt 0 (d ∷ s) (omega arith) (rw p at h)
  | inr q ↦ parse_digits-lt 0 (c ∷ d ∷ s) (omega arith) (rw q at h)
]
