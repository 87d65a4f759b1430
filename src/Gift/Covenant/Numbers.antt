-- ===== src/Gift/Covenant/Numbers.antt =====
-- The bytes of a script number: their count, and the number that they decode to.
use bsv_wallet_cli.Prelude.{
  ℕ, zero, suc, ◌+◌, ◌*◌, ◌/◌, ◌%◌, ◌^◌, ◌<◌, ◌≡◌, refl, sym, ◌∙◌, [], ◌∷◌, ◌++◌, append_assoc,
  append-nil, ◌==◌, if◌then◌else◌, is_empty, All, ap, false, Bool-cases, inl, inr, arith,
}
use bsv_wallet_cli.Gift.Covenant.{Bytes, magnitude_loop, top_bit_set, with_sign_byte, decode_loop}
use native.Mathlib.Numerals.{unary_clauses}

-- The base-256 digits of `n`, the lowest first: what the loop pushes.
unfoldable pub digits : ℕ → ℕ → Bytes
digits zero n = []
digits (suc f) n = let rest = digits f (n / 256) in if n == 0 then [] else n % 256 ∷ rest

pub digits-zero : (f : ℕ) → digits f 0 ≡ []
unfolding digits
digits-zero zero = refl
digits-zero (suc f) = refl

pub magnitude_loop-digits : (f n : ℕ) (out : Bytes) → (magnitude_loop f n out).1 ≡ out ++ digits f n
unfolding magnitude_loop digits
magnitude_loop-digits zero n out = sym (append-nil out)
magnitude_loop-digits (suc f) n out = elim (Bool-cases (n == 0)) [
  | inl z ↦ simp z (sym (append-nil out))
  | inr p ↦ simp p (
      magnitude_loop-digits f (n / 256) (out ++ n % 256 ∷ [])
      ∙ append_assoc out (n % 256 ∷ []) (digits f (n / 256)))
]

pub step256 : (f n : ℕ) → n < 256 ^ suc f → n / 256 < 256 ^ f
step256 f n h = let h' = simp unary_clauses at h in omega arith

pub magnitude_loop-rest : (f n : ℕ) (out : Bytes) → n < 256 ^ f → (magnitude_loop f n out).0 ≡ 0
unfolding magnitude_loop
magnitude_loop-rest zero n out h = omega arith
magnitude_loop-rest (suc f) n out h = elim (Bool-cases (n == 0)) [
  | inl z ↦ simp z (ground arith)
  | inr p ↦ simp p (magnitude_loop-rest f (n / 256) (out ++ n % 256 ∷ []) (step256 f n h))
]

-- The number that bytes stand for, the lowest first.
pub value : Bytes → ℕ
value [] = 0
value (b ∷ bs) = b + 256 * value bs

pub value-digits : (f n : ℕ) → n < 256 ^ f → value (digits f n) ≡ n
unfolding digits value
value-digits zero n h = omega arith
value-digits (suc f) n h = elim (Bool-cases (n == 0)) [
  | inl z ↦ simp z (ground arith)
  | inr p ↦ simp p (omega (arith, value-digits f (n / 256) (step256 f n h)))
]

-- The same, less the sign bit of the highest.
unfoldable pub unsigned_value : Bytes → ℕ
unsigned_value [] = 0
unsigned_value (b ∷ []) = b % 128
unsigned_value (b ∷ c ∷ bs) = b + 256 * unsigned_value (c ∷ bs)

eight_more : (k : ℕ) → 8 * suc k ≡ suc (suc (suc (suc (suc (suc (suc (suc (8 * k))))))))
eight_more k = omega arith

shift : (k : ℕ) → 2 ^ (8 * suc k) ≡ 256 * 2 ^ (8 * k)
shift k = ap (λ m. 2 ^ m) (eight_more k) ∙ simp unary_clauses (omega arith)

pub decode_loop-value :
    (k v : ℕ) (bs : Bytes) → decode_loop k v bs ≡ v + unsigned_value bs * 2 ^ (8 * k)
unfolding decode_loop unsigned_value
decode_loop-value k v [] = omega arith
decode_loop-value k v (b ∷ []) = refl
decode_loop-value k v (b ∷ c ∷ bs) =
    decode_loop-value (suc k) (v + b * 2 ^ (8 * k)) (c ∷ bs) ∙ rw (shift k) (grind arith)

pub digits_are_bytes : (f n : ℕ) → All (λ b. b < 256) (digits f n)
unfolding digits
digits_are_bytes zero n = tt
digits_are_bytes (suc f) n = elim (Bool-cases (n == 0)) [
  | inl z ↦ simp z tt
  | inr p ↦ simp p (omega arith, digits_are_bytes f (n / 256))
]

with_sign_byte-cons :
    (b c : ℕ) (bs : Bytes) → with_sign_byte (b ∷ c ∷ bs) ≡ b ∷ with_sign_byte (c ∷ bs)
unfolding with_sign_byte top_bit_set
with_sign_byte-cons b c bs = ground arith

with_sign_byte_nonempty : (b : ℕ) (bs : Bytes) → is_empty (with_sign_byte (b ∷ bs)) ≡ false
unfolding with_sign_byte
with_sign_byte_nonempty b bs = ground arith

unsigned_value-cons :
    (b : ℕ) (bs : Bytes)
    → is_empty bs ≡ false
    → unsigned_value (b ∷ bs) ≡ b + 256 * unsigned_value bs
unfolding unsigned_value
unsigned_value-cons b [] h = cc
unsigned_value-cons b (c ∷ bs) h = refl

-- The added byte keeps the number, since the highest byte's top bit is then no sign.
pub unsigned_value-with_sign_byte :
    (bs : Bytes) → All (λ b. b < 256) bs → unsigned_value (with_sign_byte bs) ≡ value bs
unsigned_value-with_sign_byte [] h = unfold value unsigned_value with_sign_byte top_bit_set in refl
unsigned_value-with_sign_byte (b ∷ []) h =
    let l = h.0 in unfold value unsigned_value with_sign_byte top_bit_set in ground arith
unsigned_value-with_sign_byte (b ∷ c ∷ bs) h = rw (with_sign_byte-cons b c bs) (
    rw (unsigned_value-cons b (with_sign_byte (c ∷ bs)) (with_sign_byte_nonempty c bs))
      (rw (unsigned_value-with_sign_byte (c ∷ bs) h.1) (unfold value in refl)))

top_bit_set-concat : (bs : Bytes) → top_bit_set (bs ++ 0 ∷ []) ≡ false
unfolding top_bit_set
top_bit_set-concat [] = refl
top_bit_set-concat (b ∷ []) = refl
top_bit_set-concat (b ∷ c ∷ bs) = top_bit_set-concat (c ∷ bs)

pub top_bit_set-with_sign_byte : (bs : Bytes) → top_bit_set (with_sign_byte bs) ≡ false
unfolding with_sign_byte
top_bit_set-with_sign_byte bs = elim (Bool-cases (top_bit_set bs)) [
  | inl y ↦ simp y (top_bit_set-concat bs)
  | inr n ↦ simp n refl
]
