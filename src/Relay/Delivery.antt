-- ===== src/Relay/Delivery.antt =====
-- What a pull gives a wallet, and what it leaves another.
use bsv_wallet_cli.Prelude.{
  ℕ, suc, ◌≤◌, ◌≡◌, refl, ap, ◌∙◌, Option, none, some, Bool, true, false, not, List, [], ◌∷◌, ◌++◌,
  arith, is_empty, length, select, take, Bool-cases, inl, inr, All, Option-cases,
}
use bsv_wallet_cli.Prelude.Text.{Text, text_eq, text_eq_refl, text_eq_iff}
use bsv_wallet_cli.Relay.{
  Payload, Relay, Reply, Headers, done, items, token_registered, register_token, queue,
  callback_for, arc_callback, is_due, is_acked, delete_acked, due, shown, pull,
  extract_callback_token, max_body, not_empty, or_else, bearer, page_size,
}
use bsv_wallet_cli.Relay.Queue.{IsValid, Rises-le}

select-append :
    (f : Payload → Bool) (xs ys : List Payload) → select f (xs ++ ys) ≡ select f xs ++ select f ys
select-append f [] ys = refl
select-append f (x ∷ xs) ys = elim (Bool-cases (f x)) [
  | inl y ↦ simp y (ap (λ r. x ∷ r) (select-append f xs ys))
  | inr n ↦ simp n (select-append f xs ys)
]

none_due :
    (token : Text) (after : ℕ) (ps : List Payload)
    → All (λ (p : Payload). p.id ≤ after) ps
    → select (is_due token after) ps ≡ []
none_due token after [] h = refl
none_due token after (p ∷ ps) h = ground (arith, none_due token after ps)

-- The queue after a callback has for its token exactly the new payload past the last key before.
due-queue :
    (r : Relay) (token body : Text)
    → IsValid r
    → due (queue r token body) token r.last_id
      ≡ record { id = suc r.last_id; token = token; body = body } ∷ []
unfolding due queue
due-queue r token body v =
    rw
      (
        select-append (is_due token r.last_id) r.payloads
            (record { id = suc r.last_id; token = token; body = body } ∷ []),
        none_due token r.last_id r.payloads (Rises-le 0 r.last_id r.payloads v.rises).1,
      )
      (ground (arith, text_eq_refl token))

not_empty_text : (o : Option Text) {t : Text} → not_empty o ≡ some t → is_empty t ≡ false
unfolding not_empty
not_empty_text none h = cc
not_empty_text (some u) h = ground arith

extracted_not_empty :
    (a b : Option Text) {t : Text}
    → or_else (not_empty a) (not_empty b) ≡ some t
    → is_empty t ≡ false
unfolding or_else
extracted_not_empty a b {t} h = elim (Option-cases (not_empty a)) [
  | inl n ↦ not_empty_text b (rw n at h)
  | inr (u, e) ↦ not_empty_text a (e ∙ (rw e at h))
]

accepted :
    (r : Relay) (token body : Text)
    → token_registered r token ≡ true
    → length body ≤ max_body
    → callback_for r body (some token) ≡ (queue r token body, done)
unfolding callback_for
accepted r token body t b = ground arith

registered-queue :
    (r : Relay) (token body : Text)
    → token_registered (queue r token body) token ≡ token_registered r token
unfolding token_registered queue
registered-queue r token body = refl

pull-drain :
    (r : Relay) (token : Text) (after : ℕ)
    → is_empty token ≡ false
    → token_registered r token ≡ true
    → pull r token after none ≡ (r, items (shown (due r token after)))
unfolding pull
pull-drain r token after e t = rw (e, t)

-- A payload that the relay took for a registered token is what a pull with that token gives past
-- the last key before it, if the relay's state is valid and the body is not too large.
pub pull-arc_callback :
    (r : Relay) (headers : Headers) (token body : Text)
    → IsValid r
    → extract_callback_token headers ≡ some token
    → token_registered r token ≡ true
    → length body ≤ max_body
    → (arc_callback r headers body ≡ (queue r token body, done))
      × (pull (arc_callback r headers body).0 token r.last_id none
          ≡ (queue r token body, items ((suc r.last_id, body) ∷ [])))
unfolding arc_callback shown
pull-arc_callback r headers token body v e t b =
    let taken : callback_for r body (extract_callback_token headers) ≡ (queue r token body, done) =
      ap (callback_for r body) e ∙ accepted r token body t b in
    let solid : is_empty token ≡ false =
      unfold extract_callback_token in
      extracted_not_empty (bearer headers.authorization) headers.x_callback_token e in
    (
      taken,
      ap (λ (p : Relay × Reply). pull p.0 token r.last_id none) taken
          ∙ pull-drain (queue r token body) token r.last_id solid
              (registered-queue r token body ∙ t)
          ∙ ap (λ ps. (queue r token body, items (shown ps))) (due-queue r token body v),
    )

due_others :
    (token other : Text) (ack past : ℕ) (ps : List Payload)
    → text_eq token other ≡ false
    → select (is_due other past) (select (λ p. not (is_acked token ack p)) ps)
      ≡ select (is_due other past) ps
due_others token other ack past [] h = refl
due_others token other ack past (p ∷ ps) h = ground (
  arith,
  due_others token other ack past ps,
  text_eq_iff p.token token,
  text_eq_iff p.token other,
  text_eq_iff token other,
)

due-delete_acked :
    (r : Relay) (token other : Text) (past : ℕ) (ack : Option ℕ)
    → text_eq token other ≡ false
    → due (delete_acked r token ack) other past ≡ due r other past
unfolding due delete_acked
due-delete_acked r token other past none h = refl
due-delete_acked r token other past (some ack) h =
    ap (take page_size) (due_others token other ack past r.payloads h)

due-register_token :
    (r : Relay) (token other : Text) (past : ℕ)
    → due (register_token r token) other past ≡ due r other past
unfolding due register_token
due-register_token r token other past = elim (Bool-cases (token_registered r token)) [
  | inl y ↦ simp y
  | inr n ↦ simp n
]

-- Reading and acknowledging with one token changes nothing of what is due to another.
pub due-pull_other :
    (r : Relay) (token other : Text) (after past : ℕ) (ack : Option ℕ)
    → text_eq token other ≡ false
    → due (pull r token after ack).0 other past ≡ due r other past
unfolding pull
due-pull_other r token other after past ack h = elim (Bool-cases (is_empty token)) [
  | inl y ↦ simp y
  | inr n ↦ simp n (elim (Bool-cases (token_registered r token)) [
    | inl y ↦ simp y (due-delete_acked r token other past ack h)
    | inr m ↦ simp m (elim (Bool-cases r.require_register) [
      | inl y ↦ simp y
      | inr k ↦ simp k (
          due-delete_acked (register_token r token) token other past ack h
          ∙ due-register_token r token other past)
    ])
  ])
]
