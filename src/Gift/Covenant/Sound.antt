-- ===== src/Gift/Covenant/Sound.antt =====
-- What the parser accepts: the template's prefix and suffix around three pushes that read back.
use bsv_wallet_cli.Prelude.{
  ℕ, zero, suc, ◌≤◌, ◌≡◌, refl, sym, ap, true, [], ◌∷◌, ◌++◌, Result, ok, err, OnOk, OnOk-bind,
  OnOk-map, OnOk-ok, leb, ◌==◌, ==_iff, length, take, drop, Bool-cases, inl, inr, arith, ◌&&◌,
}
use bsv_wallet_cli.Prelude.Text.{strip_prefix, text_eq, text_eq→eq}
use bsv_wallet_cli.Gift.Covenant.{
  Bytes, ScriptError, Template, CovenantParams, pushdata1_out_of_range, push_out_of_range,
  get_slice, read_data, decode_script_num, read_push_num, read_pushdata1, parse_pubkey_push,
  starts_with, ends_with, parse_params, parse_locking_script, pubkey_out_of_range,
}

take-drop : (k : ℕ) (s : Bytes) → take k s ++ drop k s ≡ s
take-drop zero s = refl
take-drop (suc k) [] = refl
take-drop (suc k) (b ∷ s) = ap (λ r. b ∷ r) (take-drop k s)

length-take : (k : ℕ) (s : Bytes) → k ≤ length s → length (take k s) ≡ k
length-take zero s h = refl
length-take (suc k) [] h = elim h [ ]
length-take (suc k) (b ∷ s) h = omega (arith, length-take k s (omega (arith, h)))

-- A slice and the rest are the script, and the slice has the length asked.
abbrev Slices : ℕ → Bytes → Bytes × Bytes → Type 0
Slices len s p = (s ≡ p.0 ++ p.1) × (length p.0 ≡ len)

get_slice-Slices : (e : ScriptError) (len : ℕ) (s : Bytes) → OnOk (Slices len s) (get_slice e len s)
unfolding get_slice
get_slice-Slices e len s = elim (Bool-cases (leb len (length s))) [
  | inl y ↦ simp y (sym (take-drop len s), length-take len s (ground arith))
  | inr n ↦ simp n tt
]

-- What is left after a read is an end of the script.
abbrev EndOf : Bytes → ℕ × Bytes → Type 0
EndOf s p = (a : Bytes) × (s ≡ a ++ p.1)

read_data-EndOf : (e : ScriptError) (len : ℕ) (s : Bytes) → OnOk (EndOf s) (read_data e len s)
unfolding read_data
read_data-EndOf e len s = OnOk-bind (EndOf s) (get_slice e len s) _ (λ p q.
    OnOk-bind (EndOf s) (decode_script_num p.0) _
      (λ v r. (p.0, (OnOk-ok (Slices len s) (get_slice e len s) (get_slice-Slices e len s) q).0)))

EndOf-cons :
    (b : ℕ) (s : Bytes) (r : Result ScriptError (ℕ × Bytes))
    → OnOk (EndOf s) r
    → OnOk (EndOf (b ∷ s)) r
EndOf-cons b s (ok p) h = (b ∷ h.0, ap (λ x. b ∷ x) h.1)
EndOf-cons b s (err e) h = tt

read_pushdata1-EndOf : (s : Bytes) → OnOk (EndOf s) (read_pushdata1 s)
read_pushdata1-EndOf [] = tt
read_pushdata1-EndOf (len ∷ s) =
    EndOf-cons len s (read_data pushdata1_out_of_range len s)
      (read_data-EndOf pushdata1_out_of_range len s)

read_push_num-EndOf : (s : Bytes) → OnOk (EndOf s) (read_push_num s)
unfolding read_push_num
read_push_num-EndOf [] = tt
read_push_num-EndOf (op ∷ s) = elim (Bool-cases (op == 0)) [
  | inl y ↦ simp y (op ∷ [], refl)
  | inr n ↦ simp n (elim (Bool-cases (leb 0x51 op && leb op 0x60)) [
    | inl y ↦ simp y (op ∷ [], refl)
    | inr n' ↦ simp n' (elim (Bool-cases (leb 0x01 op && leb op 0x4b)) [
      | inl y ↦ simp y (
          EndOf-cons op s (read_data push_out_of_range op s)
            (read_data-EndOf push_out_of_range op s))
      | inr n'' ↦ simp n'' (elim (Bool-cases (op == 0x4c)) [
        | inl y ↦ simp y (EndOf-cons op s (read_pushdata1 s) (read_pushdata1-EndOf s))
        | inr m ↦ simp m tt
      ])
    ])
  ])
]

-- The shape of an accepted script: the template around the pushes of the parameters.
abbrev pub Shape : Template → Bytes → CovenantParams → Type 0
Shape t s p =
    (length p.recipient ≡ 33)
    × (a : Bytes) × (b : Bytes) × (s ≡ t.prefix ++ 0x21 ∷ (p.recipient ++ (a ++ (b ++ t.suffix))))
    × (read_push_num (a ++ (b ++ t.suffix)) ≡ ok (p.lock_until, b ++ t.suffix))
    × (read_push_num (b ++ t.suffix) ≡ ok (p.amount, t.suffix))

abbrev Params : Template → Bytes → CovenantParams → Type 0
Params t s p =
    (length p.recipient ≡ 33)
    × (a : Bytes) × (b : Bytes) × (s ≡ p.recipient ++ (a ++ (b ++ t.suffix)))
    × (read_push_num (a ++ (b ++ t.suffix)) ≡ ok (p.lock_until, b ++ t.suffix))
    × (read_push_num (b ++ t.suffix) ≡ ok (p.amount, t.suffix))

Params-of_reads :
    (t : Template) (s key after_key : Bytes) (lock : ℕ) (after_lock : Bytes) (amount : ℕ)
    (after_amount : Bytes)
    → Slices 33 s (key, after_key)
    → read_push_num after_key ≡ ok (lock, after_lock)
    → EndOf after_key (lock, after_lock)
    → read_push_num after_lock ≡ ok (amount, after_amount)
    → EndOf after_lock (amount, after_amount)
    → after_amount ≡ t.suffix
    → Params t s (record { recipient = key; lock_until = lock; amount = amount })
Params-of_reads t s key after_key lock after_lock amount after_amount k l le m me e =
    (k.1, le.0, me.0, cc, cc, cc)

parse_params-Params : (t : Template) (s : Bytes) → OnOk (Params t s) (parse_params t s)
unfolding parse_params
parse_params-Params t s = OnOk-bind (Params t s) (get_slice pubkey_out_of_range 33 s) _ (λ k qk.
    OnOk-bind (Params t s) (read_push_num k.1) _ (λ l ql.
      OnOk-bind (Params t s) (read_push_num l.1) _ (λ m qm.
        elim (Bool-cases (text_eq m.1 t.suffix)) [
          | inl y ↦ simp y (
              Params-of_reads t s k.0 k.1 l.0 l.1 m.0 m.1
                (OnOk-ok (Slices 33 s) _ (get_slice-Slices pubkey_out_of_range 33 s) qk) ql
                (OnOk-ok (EndOf k.1) _ (read_push_num-EndOf k.1) ql) qm
                (OnOk-ok (EndOf l.1) _ (read_push_num-EndOf l.1) qm) (text_eq→eq m.1 t.suffix y))
          | inr n ↦ simp n tt
        ])))

drop_prefix : (p s : Bytes) → starts_with p s ≡ true → s ≡ p ++ drop (length p) s
unfolding starts_with strip_prefix
drop_prefix [] s h = refl
drop_prefix (b ∷ p) [] h = cc
drop_prefix (b ∷ p) (c ∷ s) h = elim (Bool-cases (b == c)) [
  | inl y ↦ let e = drop_prefix p s (simp y at h) in let q = (==_iff b c).0 y in cc
  | inr n ↦ let h' = simp n at h in cc
]

Shape-of_Params :
    (t : Template) (op : ℕ) (r s : Bytes) (p : CovenantParams)
    → s ≡ t.prefix ++ op ∷ r
    → op ≡ 0x21
    → Params t r p
    → Shape t s p
Shape-of_Params t op r s p e o h = (h.0, h.1, h.2, cc, h.4, h.5)

parse_pubkey_push-Shape :
    (t : Template) (s r : Bytes) → s ≡ t.prefix ++ r → OnOk (Shape t s) (parse_pubkey_push t r)
parse_pubkey_push-Shape t s [] e = tt
parse_pubkey_push-Shape t s (op ∷ r) e = elim (Bool-cases (op == 0x21)) [
  | inl y ↦ simp y (
      OnOk-map (Params t r) (Shape t s) (λ p. Shape-of_Params t op r s p e ((==_iff op 0x21).0 y))
        (parse_params t r) (parse_params-Params t r))
  | inr n ↦ simp n tt
]

-- A script that the parser accepts is the template around a push of the 33 bytes it gives as the
-- key and two pushes that read as the lock time and the amount it gives, with nothing between.
pub parse_locking_script-Shape :
    (t : Template) (s : Bytes) (p : CovenantParams) → parse_locking_script t s ≡ ok p → Shape t s p
unfolding parse_locking_script
parse_locking_script-Shape t s p h = elim (Bool-cases (starts_with t.prefix s)) [
  | inr n ↦ let h' = simp n at h in cc
  | inl y ↦ elim (Bool-cases (ends_with t.suffix s)) [
    | inr n ↦ let h' = simp n at (simp y at h) in cc
    | inl z ↦
        OnOk-ok (Shape t s) _
          (parse_pubkey_push-Shape t s (drop (length t.prefix) s) (drop_prefix t.prefix s y))
          (simp z at (simp y at h))
  ]
]
