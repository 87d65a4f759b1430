-- ===== src/Ingest/Pages.antt =====
-- What is due of a rising queue past the last key of a page, and the lists that a poll drops.
use bsv_wallet_cli.Prelude.{
  ℕ, zero, suc, ◌+◌, ◌≤◌, ◌≡◌, refl, ap, sym, subst, ◌∙◌, max, false, not, List, [], ◌∷◌, arith,
  inl, inr, Bool-cases, length, select, take, drop,
}
use bsv_wallet_cli.Prelude.Text.{Text}
use bsv_wallet_cli.Relay.{Payload, Relay, is_due, is_acked}
use bsv_wallet_cli.Relay.Queue.{Rises}

-- The key that a poller has after these payloads.
unfoldable pub last_of : ℕ → List Payload → ℕ
last_of a [] = a
last_of a (p ∷ ps) = last_of (max a p.id) ps

pub last_of-ge : (a : ℕ) (ps : List Payload) → a ≤ last_of a ps
unfolding last_of
last_of-ge a [] = omega arith
last_of-ge a (p ∷ ps) = omega (arith, last_of-ge (max a p.id) ps)

skip :
    (token : Text) (b : ℕ) (p : Payload) (ps : List Payload)
    → is_due token b p ≡ false
    → select (is_due token b) (p ∷ ps) ≡ select (is_due token b) ps
skip token b p ps h = simp h

-- Past a key below all of a rising list's, the same are due as past any other such key.
due-low :
    (token : Text) (low high a : ℕ) (ps : List Payload)
    → Rises low high ps
    → a ≤ low
    → select (is_due token a) ps ≡ select (is_due token low) ps
due-low token low high a [] r h = refl
due-low token low high a (p ∷ ps) r h =
    let q = due-low token p.id high a ps r.1 (omega arith) in
    let q' = due-low token p.id high low ps r.1 (omega arith) in ground arith

-- Past the last key of a page, what is due is what was due after the page.
pub due-drop :
    (token : Text) (low high : ℕ) (k a : ℕ) (ps : List Payload)
    → Rises low high ps
    → select (is_due token (last_of a (take k (select (is_due token a) ps)))) ps
      ≡ drop k (select (is_due token a) ps)
unfolding last_of
due-drop token low high zero a ps r = refl
due-drop token low high (suc k) a [] r = refl
due-drop token low high (suc k) a (p ∷ ps) r =
    let P : List Payload → Type 0 =
      λ D. select (is_due token (last_of a (take (suc k) D))) (p ∷ ps) ≡ drop (suc k) D in
    elim (Bool-cases (is_due token a p)) [
      | inl y ↦
          let page = take k (select (is_due token p.id) ps) in
          let top : max a p.id ≡ p.id = ground arith in
          let full : select (is_due token a) (p ∷ ps) ≡ p ∷ select (is_due token p.id) ps =
            (simp y (ap (λ D. p ∷ D) (due-low token p.id high a ps r.1 (ground arith)))) in
          subst P (sym full) (
            skip token (last_of (max a p.id) page) p ps
              (let b = last_of-ge (max a p.id) page in ground arith)
            ∙ ap (λ m. select (is_due token (last_of m page)) ps) top
            ∙ due-drop token p.id high k p.id ps r.1)
      | inr n ↦
          let page = take (suc k) (select (is_due token a) ps) in
          subst P (sym (skip token a p ps n)) (
            skip token (last_of a page) p ps (let b = last_of-ge a page in ground arith)
            ∙ due-drop token p.id high (suc k) a ps r.1)
    ]

pub due-acked :
    (token : Text) (a b : ℕ) (ps : List Payload)
    → a ≤ b
    → select (is_due token b) (select (λ p. not (is_acked token a p)) ps)
      ≡ select (is_due token b) ps
due-acked token a b [] h = refl
due-acked token a b (p ∷ ps) h = ground (arith, due-acked token a b ps h)

pub length-drop :
    {A : Type 0} (k : ℕ) (xs : List A) (n : ℕ) → length xs ≤ k + n → length (drop k xs) ≤ n
length-drop zero xs n h = omega arith
length-drop (suc k) [] n h = omega arith
length-drop (suc k) (x ∷ xs) n h = length-drop k xs n (omega arith)

pub is_nil : {A : Type 0} (xs : List A) → length xs ≤ 0 → xs ≡ []
is_nil [] h = refl
is_nil (x ∷ xs) h = ground arith

-- The payloads that wait for a poller with this token and last key.
abbrev pub waiting : Relay → Text → ℕ → List Payload
waiting r token a = select (is_due token a) r.payloads
