-- ===== src/SpendGate/Assess/Cap.antt =====
-- `cap_offer`: how many coins the offer keeps, and what it says of those left out.
use bsv_wallet_cli.Prelude.{
  ℕ, zero, suc, ◌+◌, ◌≤◌, ◌<◌, ◌≡◌, refl, Option, none, some, List, [], ◌∷◌, ◌++◌, arith, ◌==◌,
  if◌then◌else◌, sum_by, sum_by-append, length, length-append, leb, leb→le, take, Bool-cases, inl,
  inr,
}
use bsv_wallet_cli.SpendGate.Assess.{
  Assessment, Capped, offered_satoshis, part, cap_offer, is_kept, by_value, indexed,
}

-- How many of the positions from `i` on are kept.
abbrev hits : List (ℕ × ℕ) → ℕ → List (ℕ × ℕ) → ℕ
hits kept i [] = 0
hits kept i (o ∷ os) = (if is_kept kept i then 1 else 0) + hits kept (suc i) os

abbrev hit : ℕ → ℕ → List (ℕ × ℕ) → ℕ
hit k i [] = 0
hit k i (o ∷ os) = (if k == i then 1 else 0) + hit k (suc i) os

hit_past : (k i : ℕ) (os : List (ℕ × ℕ)) → k < i → hit k i os ≡ 0
hit_past k i [] h = refl
hit_past k i (o ∷ os) h = ground (arith, hit_past k (suc i) os)

hit-le-one : (k i : ℕ) (os : List (ℕ × ℕ)) → hit k i os ≤ 1
hit-le-one k i [] = omega arith
hit-le-one k i (o ∷ os) = ground (arith, hit_past k (suc i) os, hit-le-one k (suc i) os)

hits-cons :
    (p : ℕ × ℕ) (kept : List (ℕ × ℕ)) (i : ℕ) (os : List (ℕ × ℕ))
    → hits (p ∷ kept) i os ≤ hit p.0 i os + hits kept i os
unfolding is_kept
hits-cons p kept i [] = omega arith
hits-cons p kept i (o ∷ os) = ground (arith, hits-cons p kept (suc i) os)

hits-nil : (i : ℕ) (os : List (ℕ × ℕ)) → hits [] i os ≡ 0
unfolding is_kept
hits-nil i [] = refl
hits-nil i (o ∷ os) = omega (arith, hits-nil (suc i) os)

hits-le-length : (kept : List (ℕ × ℕ)) (i : ℕ) (os : List (ℕ × ℕ)) → hits kept i os ≤ length kept
hits-le-length [] i os = omega (arith, hits-nil i os)
hits-le-length (p ∷ kept) i os =
    omega (arith, hits-cons p kept i os, hit-le-one p.0 i os, hits-le-length kept i os)

length-take-le : (n : ℕ) (xs : List (ℕ × ℕ)) → length (take n xs) ≤ n
length-take-le zero xs = omega arith
length-take-le (suc n) [] = omega arith
length-take-le (suc n) (x ∷ xs) = omega (arith, length-take-le n xs)

length-part :
    (kept : List (ℕ × ℕ)) (i : ℕ) (os : List (ℕ × ℕ)) (a : Assessment) (c : Capped)
    → length (part kept i os a c).offered ≡ length a.offered + hits kept i os
unfolding part
length-part kept i [] a c = omega arith
length-part kept i (o ∷ os) a c = elim (Bool-cases (is_kept kept i)) [
  | inl y ↦ simp y (
      omega (
        arith,
        length-part kept (suc i) os (record a { offered = a.offered ++ o ∷ [] }) c,
        length-append a.offered (o ∷ []),
      ))
  | inr n ↦ simp n (
      omega (
        arith,
        length-part kept (suc i) os (record a { unread = a.unread ++ o.0 ∷ [] })
            (record c { coins = c.coins + 1; satoshis = c.satoshis + o.1 }),
      ))
]

abbrev pub capped_satoshis : Option Capped → ℕ
capped_satoshis none = 0
capped_satoshis (some c) = c.satoshis

abbrev pub capped_coins : Option Capped → ℕ
capped_coins none = 0
capped_coins (some c) = c.coins

abbrev pub worth : List (ℕ × ℕ) → ℕ
worth os = sum_by (λ (o : ℕ × ℕ). o.1) os

-- No coin and no satoshi is lost between the offer and what the cap leaves out.
abbrev pub Conserves : Assessment → ℕ → ℕ → Type 0
Conserves a coins satoshis =
    (length a.offered + capped_coins a.capped ≡ coins)
    × (offered_satoshis a + capped_satoshis a.capped ≡ satoshis)

part-Conserves :
    (kept : List (ℕ × ℕ)) (i : ℕ) (os : List (ℕ × ℕ)) (a : Assessment) (c : Capped)
    → Conserves
        (part kept i os a c)
        (length a.offered + c.coins + length os)
        (offered_satoshis a + c.satoshis + worth os)
unfolding part
part-Conserves kept i [] a c = omega arith
part-Conserves kept i (o ∷ os) a c = elim (Bool-cases (is_kept kept i)) [
  | inl y ↦ simp y (
      omega (
        arith,
        part-Conserves kept (suc i) os (record a { offered = a.offered ++ o ∷ [] }) c,
        length-append a.offered (o ∷ []),
        sum_by-append (λ (o : ℕ × ℕ). o.1) a.offered (o ∷ []),
      ))
  | inr n ↦ simp n (
      omega (
        arith,
        part-Conserves kept (suc i) os (record a { unread = a.unread ++ o.0 ∷ [] })
            (record c { coins = c.coins + 1; satoshis = c.satoshis + o.1 }),
      ))
]

-- An offer not capped before has at most `most` coins after `cap_offer`, and the coins and satoshis
-- of the offer with those counted as left out are the coins and satoshis offered before.
pub cap_offer_lem :
    (a : Assessment) (most : ℕ)
    → a.capped ≡ none
    → (length (cap_offer a most).offered ≤ most)
      × Conserves (cap_offer a most) (length a.offered) (offered_satoshis a)
unfolding cap_offer
cap_offer_lem a most h = elim (Bool-cases (leb (length a.offered) most)) [
  | inl y ↦ simp y (leb→le _ _ y, (ground arith, ground arith))
  | inr n ↦
      let kept = take most (by_value (indexed 0 a.offered)) in
      let c : Capped = record { coins = 0; satoshis = 0; cap = most } in
      let whole = part-Conserves kept 0 a.offered (record a { offered = [] }) c in
      simp n (
        omega (
          arith,
          length-part kept 0 a.offered (record a { offered = [] }) c,
          hits-le-length kept 0 a.offered,
          length-take-le most (by_value (indexed 0 a.offered)),
        ),
        (omega (arith, whole), omega (arith, whole)),
      )
]
