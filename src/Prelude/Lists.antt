-- ===== src/Prelude/Lists.antt =====
-- Lists measured by native numbers, tests on their items, and predicates over them.
use Prim.Native.Nat.{ℕ, zero, suc, ◌+◌}
use mathlib.Core.Path.{◌≡◌}
use mathlib.Core.Logic.{inl, inr}
use mathlib.Core.Bool.{Bool, true, false, ◌&&◌, ◌||◌}
use mathlib.Core.List.{List, [], ◌∷◌, ◌++◌, map, Mem, mem-cons_self, mem-cons_of_mem}
use native.Mathlib.Omega.{arith}
use bsv_wallet_cli.Prelude.Tests.{if◌then◌else◌, Bool-cases}

module _ {ℓ} {A : Type ℓ} where
  abbrev pub length : List A → ℕ
  length [] = 0
  length (x ∷ xs) = suc (length xs)

  abbrev pub is_empty : List A → Bool
  is_empty [] = true
  is_empty (x ∷ xs) = false

  abbrev pub any : (A → Bool) → List A → Bool
  any p [] = false
  any p (x ∷ xs) = p x || any p xs

  abbrev pub all : (A → Bool) → List A → Bool
  all p [] = true
  all p (x ∷ xs) = p x && all p xs

  -- The items that pass a Boolean test, in their order.
  abbrev pub select : (A → Bool) → List A → List A
  select p [] = []
  select p (x ∷ xs) = let rest = select p xs in if p x then x ∷ rest else rest

  abbrev pub take : ℕ → List A → List A
  take zero xs = []
  take (suc n) [] = []
  take (suc n) (x ∷ xs) = x ∷ take n xs

  abbrev pub drop : ℕ → List A → List A
  drop zero xs = xs
  drop (suc n) [] = []
  drop (suc n) (x ∷ xs) = drop n xs

  abbrev pub sum_by : (A → ℕ) → List A → ℕ
  sum_by f [] = 0
  sum_by f (x ∷ xs) = f x + sum_by f xs

  pub length-append : (xs ys : List A) → length (xs ++ ys) ≡ length xs + length ys
  length-append [] ys = omega arith
  length-append (x ∷ xs) ys = omega (arith, length-append xs ys)

  pub sum_by-append : (f : A → ℕ) (xs ys : List A) → sum_by f (xs ++ ys) ≡ sum_by f xs + sum_by f ys
  sum_by-append f [] ys = omega arith
  sum_by-append f (x ∷ xs) ys = omega (arith, sum_by-append f xs ys)

-- A predicate on every item, by recursion: it computes to tuples.
module _ {ℓ κ} {A : Type ℓ} (P : A → Type κ) where
  abbrev pub All : List A → Type κ
  All [] = Unit
  All (x ∷ xs) = P x × All xs

  pub All-append : (xs ys : List A) → All xs → All ys → All (xs ++ ys)
  All-append [] ys hx hy = hy
  All-append (x ∷ xs) ys hx hy = (hx.0, All-append xs ys hx.1 hy)

  pub All-of : ((a : A) → P a) → (xs : List A) → All xs
  All-of f [] = tt
  All-of f (x ∷ xs) = (f x, All-of f xs)

  pub All-take : (n : ℕ) (xs : List A) → All xs → All (take n xs)
  All-take zero xs h = tt
  All-take (suc n) [] h = tt
  All-take (suc n) (x ∷ xs) h = (h.0, All-take n xs h.1)

  pub All-drop : (n : ℕ) (xs : List A) → All xs → All (drop n xs)
  All-drop zero xs h = h
  All-drop (suc n) [] h = tt
  All-drop (suc n) (x ∷ xs) h = All-drop n xs h.1

  pub All-concat : (xs : List A) {x : A} → All xs → P x → All (xs ++ x ∷ [])
  All-concat [] _ p = (p, tt)
  All-concat (y ∷ xs) h p = (h.0, All-concat xs h.1 p)

pub All-map {ℓ κ} :
    {A : Type ℓ} (P Q : A → Type κ) (f : (a : A) → P a → Q a) (xs : List A) → All P xs → All Q xs
All-map P Q f [] h = tt
All-map P Q f (x ∷ xs) h = (f x h.0, All-map P Q f xs h.1)

-- Two lists of one length, related item by item.
module _ {ℓ} {A : Type ℓ} (R : A → A → Type 0) where
  abbrev pub Pairs : List A → List A → Type 0
  Pairs [] [] = Unit
  Pairs [] (y ∷ ys) = ⊥
  Pairs (x ∷ xs) [] = ⊥
  Pairs (x ∷ xs) (y ∷ ys) = R x y × Pairs xs ys

  pub Pairs-map : (f : A → A) → ((a : A) → R a (f a)) → (xs : List A) → Pairs xs (map f xs)
  Pairs-map f h [] = tt
  Pairs-map f h (x ∷ xs) = (h x, Pairs-map f h xs)

  pub Pairs-refl : ((a : A) → R a a) → (xs : List A) → Pairs xs xs
  Pairs-refl h [] = tt
  Pairs-refl h (x ∷ xs) = (h x, Pairs-refl h xs)

  pub Pairs-trans :
      ((a b c : A) → R a b → R b c → R a c)
      → (xs ys zs : List A) → Pairs xs ys
      → Pairs ys zs
      → Pairs xs zs
  Pairs-trans t [] [] [] p q = tt
  Pairs-trans t [] [] (z ∷ zs) p q = elim q [ ]
  Pairs-trans t [] (y ∷ ys) zs p q = elim p [ ]
  Pairs-trans t (x ∷ xs) [] zs p q = elim p [ ]
  Pairs-trans t (x ∷ xs) (y ∷ ys) [] p q = elim q [ ]
  Pairs-trans t (x ∷ xs) (y ∷ ys) (z ∷ zs) p q = (t x y z p.0 q.0, Pairs-trans t xs ys zs p.1 q.1)

-- Each item of a list is in it.
module _ {ℓ} {A : Type ℓ} where
  pub All-Mem : (xs : List A) → All (λ x. Mem x xs) xs
  All-Mem [] = tt
  All-Mem (x ∷ xs) = (
    mem-cons_self,
    All-map (λ y. Mem y xs) (λ y. Mem y (x ∷ xs)) (λ y m. mem-cons_of_mem x m) xs (All-Mem xs),
  )

  pub All-select {κ} :
      (P : A → Type κ) (f : A → Bool) (xs : List A) → All P xs → All P (select f xs)
  All-select P f [] h = tt
  All-select P f (x ∷ xs) h = elim (Bool-cases (f x)) [
    | inl y ↦ simp y (h.0, All-select P f xs h.1)
    | inr n ↦ simp n (All-select P f xs h.1)
  ]
