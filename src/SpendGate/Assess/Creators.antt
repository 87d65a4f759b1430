-- ===== src/SpendGate/Assess/Creators.antt =====
-- The list of creators to read, and the readings that list them.
use bsv_wallet_cli.Prelude.{
  ◌-◌, ◌≡◌, refl, ap, ◌∙◌, subst, Bool, true, ◌||◌, not, List, [], ◌∷◌, ◌++◌, inl, inr, Bool-cases,
  arith, All, All-concat, any, select, take, drop, length,
}
use bsv_wallet_cli.Prelude.Text.{Text, text_eq, text_eq→eq, text_eq_refl}
use bsv_wallet_cli.SpendGate.Store.{Candidate}
use bsv_wallet_cli.SpendGate.Assess.{
  Creator, Readings, reading_of, contains, by_creator, add_creators, add_creator,
}

-- Every creator of the list has a reading.
abbrev pub Lists : Readings → List Creator → Type 0
Lists rs cs = All (λ (c : Creator). contains c.0 rs ≡ true) cs

contains-append :
    (t : Text) (xs ys : Readings) → contains t (xs ++ ys) ≡ contains t xs || contains t ys
unfolding reading_of
contains-append t [] ys = refl
contains-append t ((u, r) ∷ xs) ys = elim (Bool-cases (text_eq u t)) [
  | inl y ↦ simp y
  | inr n ↦ simp n (contains-append t xs ys)
]

pub Lists-append : (xs ys : Readings) (cs : List Creator) → Lists ys cs → Lists (xs ++ ys) cs
Lists-append xs ys [] h = tt
Lists-append xs ys (c ∷ cs) h =
    (ground (arith, contains-append c.0 xs ys), Lists-append xs ys cs h.1)

-- What was read before and what was asked now are the whole.
pub Lists-select :
    (xs ys : Readings) (cs : List Creator)
    → Lists xs (select (λ (t, p). not (contains t ys)) cs)
    → Lists (xs ++ ys) cs
Lists-select xs ys [] h = tt
Lists-select xs ys (c ∷ cs) h = elim (Bool-cases (contains c.0 ys)) [
  | inl y ↦ (ground (arith, contains-append c.0 xs ys), Lists-select xs ys cs (simp y at h))
  | inr n ↦
      let k = (simp n at h) in
      (ground (arith, contains-append c.0 xs ys, k.0), Lists-select xs ys cs k.1)
]

pub Lists-any :
    (rs : Readings) (cs : List Creator) (txid : Text)
    → any (λ (t, p). text_eq t txid) cs ≡ true
    → Lists rs cs
    → contains txid rs ≡ true
Lists-any rs [] txid h l = cc
Lists-any rs ((t, p) ∷ cs) txid h l = elim (Bool-cases (text_eq t txid)) [
  | inl y ↦ subst (λ u. contains u rs ≡ true) (text_eq→eq t txid y) l.0
  | inr n ↦ Lists-any rs cs txid (ground arith) l.1
]

take-length : (cs : List Creator) → take (length cs) cs ≡ cs
take-length [] = refl
take-length (c ∷ cs) = ap (λ ds. c ∷ ds) (take-length cs)

pub take_all : (cs : List Creator) → take (length cs - 0) (drop 0 cs) ≡ cs
take_all cs =
    let e : length cs - 0 ≡ length cs = omega arith in ap (λ n. take n cs) e ∙ take-length cs

any-concat :
    (f : Creator → Bool) (xs : List Creator) (x : Creator) → any f (xs ++ x ∷ []) ≡ any f xs || f x
any-concat f [] x = ground arith
any-concat f (y ∷ xs) x = ground (arith, any-concat f xs x)

any-add_creator :
    (f : Creator → Bool) (cs : List Creator) (c : Candidate)
    → any f cs ≡ true
    → any f (add_creator cs c) ≡ true
unfolding add_creator
any-add_creator f cs c h = elim (Bool-cases (any (λ (t, p). text_eq t c.txid) cs)) [
  | inl y ↦ simp y h
  | inr n ↦ simp n (ground (arith, any-concat f cs (c.txid, c.proof)))
]

add_creator_lem :
    (cs : List Creator) (c : Candidate) → any (λ (t, p). text_eq t c.txid) (add_creator cs c) ≡ true
unfolding add_creator
add_creator_lem cs c = elim (Bool-cases (any (λ (t, p). text_eq t c.txid) cs)) [
  | inl y ↦ simp y
  | inr n ↦ simp n (
      ground
        (arith, any-concat (λ (t, p). text_eq t c.txid) cs (c.txid, c.proof), text_eq_refl c.txid))
]

any-add_creators :
    (f : Creator → Bool) (cs : List Creator) (all : List Candidate)
    → any f cs ≡ true
    → any f (add_creators cs all) ≡ true
unfolding add_creators
any-add_creators f cs [] h = h
any-add_creators f cs (c ∷ all) h =
    any-add_creators f (add_creator cs c) all (any-add_creator f cs c h)

add_creators_lem :
    (cs : List Creator) (all : List Candidate)
    → All (λ (c : Candidate). any (λ (t, p). text_eq t c.txid) (add_creators cs all) ≡ true) all
unfolding add_creators
add_creators_lem cs [] = tt
add_creators_lem cs (c ∷ all) = (
  any-add_creators (λ (t, p). text_eq t c.txid) (add_creator cs c) all (add_creator_lem cs c),
  add_creators_lem (add_creator cs c) all,
)

-- Each candidate's creator is in the list.
pub by_creator_lem :
    (all : List Candidate)
    → All (λ (c : Candidate). any (λ (t, p). text_eq t c.txid) (by_creator all) ≡ true) all
unfolding by_creator
by_creator_lem all = add_creators_lem [] all

add_creators-All :
    (Q : Creator → Type 0) (cs : List Creator) (all : List Candidate)
    → All Q cs
    → All (λ (c : Candidate). Q (c.txid, c.proof)) all
    → All Q (add_creators cs all)
unfolding add_creators add_creator
add_creators-All Q cs [] h q = h
add_creators-All Q cs (c ∷ all) h q = elim (Bool-cases (any (λ (t, p). text_eq t c.txid) cs)) [
  | inl y ↦ simp y (add_creators-All Q cs all h q.1)
  | inr n ↦
      simp n (add_creators-All Q (cs ++ (c.txid, c.proof) ∷ []) all (All-concat Q cs h q.0) q.1)
]

-- What holds of each candidate's creator holds of the list.
pub by_creator-All :
    (Q : Creator → Type 0) (all : List Candidate)
    → All (λ (c : Candidate). Q (c.txid, c.proof)) all
    → All Q (by_creator all)
unfolding by_creator
by_creator-All Q all q = add_creators-All Q [] all tt q
