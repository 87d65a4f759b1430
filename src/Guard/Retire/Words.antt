-- ===== src/Guard/Retire/Words.antt =====
-- What the retire guard refuses, and when the doors say `built`.
use bsv_wallet_cli.Prelude.{
  ◌≡◌, refl, sym, ap, Option, none, some, Bool, true, false, List, [], ◌∷◌, ◌++◌, if◌then◌else◌,
  Bool-cases, inl, inr, ◌↔◌, All, subst,
}
use mathlib.Core.List.{Memᴰ}
use bsv_wallet_cli.Prelude.Text.{Text, codes}
use bsv_wallet_cli.Guard.Retire.Took.{Took, broadcaster_took_iff, is_one_of_iff}
use bsv_wallet_cli.Guard.Retire.{
  Records, PostWord, is_one_of, req_status, broadcaster_took, first_taken, waiting_statuses,
  word_for, post_word,
}

-- The first of the transactions that a broadcaster took: none before it was taken.
pub first_taken_lem :
    (rec : Records) (txids : List Text) (txid : Text)
    → first_taken rec txids ≡ some txid
    → (before after : List Text) × (txids ≡ before ++ txid ∷ after)
      × All (λ t. broadcaster_took rec t ≡ false) before
      × (broadcaster_took rec txid ≡ true)
unfolding first_taken
first_taken_lem rec [] txid h = absurd (cc)
first_taken_lem rec (t ∷ ts) txid h = elim (Bool-cases (broadcaster_took rec t)) [
  | inl y ↦
      let e : t ≡ txid = cc (rw y at h) in
      ([], ts, ap (λ u. u ∷ ts) e, tt, subst (λ u. broadcaster_took rec u ≡ true) e y)
  | inr n ↦
      let (before, after, e, b, a) = first_taken_lem rec ts txid (rw n at h) in
      (t ∷ before, after, ap (λ us. t ∷ us) e, (n, b), a)
]

not_taken : (b : Bool) → ¬ (b ≡ true) → b ≡ false
not_taken true h = absurd (h refl)
not_taken false h = refl

-- The request has a status that it has before any post of it was taken.
abbrev pub Waits : Records → Text → Text → Type 0
Waits rec txid status =
    (req_status rec.reqs txid ≡ some status)
    × Memᴰ status (codes "unsent" ∷ codes "sending" ∷ codes "unprocessed" ∷ [])

word_for-waiting :
    (last_hint : Text → Option Text) (reads took : Bool) (txid request : Text) (p : PostWord)
    → is_one_of waiting_statuses request ≡ true
    → (word_for last_hint (if reads then some took else none) txid (some request) ≡ some p) ↔ (
        (reads ≡ true)
        × (took ≡ false)
        × (◌≡◌ {A = Option Text} (some request) (some p.request))
        × (is_one_of waiting_statuses p.request ≡ true)
        × (p.hint ≡ last_hint txid))
unfolding word_for
word_for-waiting last_hint true true txid request p y =
    simp y (λ h. absurd (cc), λ (r, t, e, w, k). absurd (cc))
word_for-waiting last_hint true false txid request p y = simp y (
  λ h.
      let e : record { request = request; hint = last_hint txid } ≡ p = cc in
      (
        refl,
        refl,
        ap (λ (q : PostWord). some q.request) e,
        subst (λ (q : PostWord). is_one_of waiting_statuses q.request ≡ true) e y,
        ap (λ (q : PostWord). q.hint) (sym e),
      ),
  λ (r, t, e, w, k). let q : request ≡ p.request = cc in rw (q, sym k) refl,
)
word_for-waiting last_hint false took txid request p y =
    simp y (λ h. absurd (cc), λ (r, t, e, w, k). absurd (cc))

-- `took` is the guard's answer, where it could be read.
word_for-some :
    (last_hint : Text → Option Text) (reads took : Bool) (txid : Text) (request : Option Text)
    (p : PostWord)
    → (word_for last_hint (if reads then some took else none) txid request ≡ some p) ↔ (
        (reads ≡ true)
        × (took ≡ false)
        × (request ≡ some p.request)
        × (is_one_of waiting_statuses p.request ≡ true)
        × (p.hint ≡ last_hint txid))
unfolding word_for
word_for-some last_hint reads took txid none p = (λ h. absurd (cc), λ (r, t, e, w, k). absurd (cc))
word_for-some last_hint reads took txid (some request) p =
    elim (Bool-cases (is_one_of waiting_statuses request)) [
      | inl y ↦ word_for-waiting last_hint reads took txid request p y
      | inr n ↦ simp n (
        λ h. absurd (cc),
        λ (r, t, e, w, k). let q : request ≡ p.request = cc in absurd (cc (rw q at n)),
      )
    ]

-- The doors answer `built` exactly where the records could be read, the request is unsent, sending
-- or unprocessed, and no broadcaster took the transaction by any row of its request, of its
-- transaction, of the broadcast memory or of the tracker; and then with the request's status and
-- the last hint of its history.
pub post_word_iff :
    (rec : Records) (last_hint : Text → Option Text) (reads : Bool) (txid : Text) (p : PostWord)
    → (post_word rec last_hint reads txid ≡ some p)
      ↔ ((reads ≡ true) × Waits rec txid p.request × (p.hint ≡ last_hint txid) × ¬ (Took rec txid))
unfolding post_word waiting_statuses
post_word_iff rec last_hint reads txid p =
    let g =
      word_for-some last_hint reads (broadcaster_took rec txid) txid (req_status rec.reqs txid) p in
    let b = broadcaster_took_iff rec txid in
    (
      λ h.
          let (r, t, e, w, k) = g.0 h in
          (r, (e, (is_one_of_iff waiting_statuses p.request).0 w), k, λ y. let z = b.1 y in cc),
      λ (r, (e, m), k, n). g.1 (
        r,
        not_taken (broadcaster_took rec txid) (λ h. n (b.0 h)),
        e,
        (is_one_of_iff waiting_statuses p.request).1 m,
        k,
      ),
    )
