-- ===== src/Relay/Queue.antt =====
-- The invariant of the relay's queue.
use bsv_wallet_cli.Prelude.{
  ℕ, suc, ◌<◌, ◌≤◌, ◌≡◌, Option, none, some, Bool, true, not, List, [], ◌∷◌, ◌++◌, arith, ltb, any,
  is_empty, length, select, Bool-cases, inl, inr, All, All-map, All-select, All-concat,
}
use bsv_wallet_cli.Prelude.Text.{Text, text_eq}
use bsv_wallet_cli.Relay.{
  Payload, Relay, Headers, Request, callback, pull_request, register_request, token_registered,
  register_token, callback_for, arc_callback, is_acked, delete_acked, pull, register_with, register,
  handle, serve, extract_callback_token, max_body, is_admin, bearer,
}

-- The keys rise along the list, from above `low`, and stay at most `high`.
abbrev pub Rises : ℕ → ℕ → List Payload → Type 0
Rises low high [] = low ≤ high
Rises low high (p ∷ ps) = (low < p.id) × Rises p.id high ps

abbrev pub Registered : Relay → Payload → Type 0
Registered r p = token_registered r p.token ≡ true

pub record IsValid (r : Relay) : Type 0 where
  pub rises : Rises 0 r.last_id r.payloads
  pub registered : All (Registered r) r.payloads

-- No key of a rising list is above its upper end.
pub Rises-le :
    (low high : ℕ) (ps : List Payload)
    → Rises low high ps
    → (low ≤ high) × All (λ (p : Payload). p.id ≤ high) ps
Rises-le low high [] r = (r, tt)
Rises-le low high (p ∷ ps) r = let (a, b) = Rises-le p.id high ps r.1 in (omega arith, (a, b))

Rises-weaken :
    (low low' high : ℕ) (ps : List Payload) → low' ≤ low → Rises low high ps → Rises low' high ps
Rises-weaken low low' high [] h r = omega arith
Rises-weaken low low' high (p ∷ ps) h r = (omega arith, r.1)

Rises-select :
    (f : Payload → Bool) (low high : ℕ) (ps : List Payload)
    → Rises low high ps
    → Rises low high (select f ps)
Rises-select f low high [] r = r
Rises-select f low high (p ∷ ps) r = elim (Bool-cases (f p)) [
  | inl y ↦ simp y (r.0, Rises-select f p.id high ps r.1)
  | inr n ↦
      simp n
        (Rises-weaken p.id low high (select f ps) (omega arith) (Rises-select f p.id high ps r.1))
]

Rises-concat :
    (low high : ℕ) (ps : List Payload) (token body : Text)
    → Rises low high ps
    → Rises low (suc high) (ps ++ record { id = suc high; token = token; body = body } ∷ [])
Rises-concat low high [] token body r = (omega arith, omega arith)
Rises-concat low high (p ∷ ps) token body r = (r.0, Rises-concat p.id high ps token body r.1)

delete_acked-IsValid :
    (r : Relay) (token : Text) (ack : Option ℕ) → IsValid r → IsValid (delete_acked r token ack)
unfolding delete_acked token_registered
delete_acked-IsValid r token none v = v
delete_acked-IsValid r token (some ack) v = record {
  rises = Rises-select (λ p. not (is_acked token ack p)) 0 r.last_id r.payloads v.rises;
  registered = All-select (Registered r) (λ p. not (is_acked token ack p)) r.payloads v.registered;
}

any-concat :
    (f : Text → Bool) (xs : List Text) (x : Text) → any f xs ≡ true → any f (xs ++ x ∷ []) ≡ true
any-concat f [] x h = cc
any-concat f (y ∷ xs) x h = ground (arith, any-concat f xs x)

register_token-IsValid : (r : Relay) (token : Text) → IsValid r → IsValid (register_token r token)
unfolding register_token
register_token-IsValid r token v = elim (Bool-cases (token_registered r token)) [
  | inl y ↦ simp y v
  | inr n ↦ simp n (record {
    rises = v.rises;
    registered =
        All-map (Registered r) (Registered (record r { tokens = r.tokens ++ token ∷ [] }))
          (λ p h. unfold token_registered in any-concat (λ t. text_eq t p.token) r.tokens token h)
          r.payloads v.registered;
  })
]

callback_for-IsValid :
    (r : Relay) (body : Text) (token : Option Text)
    → IsValid r
    → IsValid (callback_for r body token).0
unfolding callback_for
callback_for-IsValid r body none v = v
callback_for-IsValid r body (some token) v = elim (Bool-cases (token_registered r token)) [
  | inr n ↦ simp n v
  | inl y ↦ simp y (elim (Bool-cases (ltb max_body (length body))) [
    | inl l ↦ simp l v
    | inr m ↦ simp m (record {
      rises = Rises-concat 0 r.last_id r.payloads token body v.rises;
      registered =
          unfold token_registered in
          All-concat (λ (p : Payload). any (λ t. text_eq t p.token) r.tokens ≡ true) r.payloads
            v.registered y;
    })
  ])
]

pull-IsValid :
    (r : Relay) (token : Text) (after : ℕ) (ack : Option ℕ)
    → IsValid r
    → IsValid (pull r token after ack).0
unfolding pull
pull-IsValid r token after ack v = elim (Bool-cases (is_empty token)) [
  | inl y ↦ simp y v
  | inr n ↦ simp n (elim (Bool-cases (token_registered r token)) [
    | inl y ↦ simp y (delete_acked-IsValid r token ack v)
    | inr m ↦ simp m (elim (Bool-cases r.require_register) [
      | inl y ↦ simp y v
      | inr k ↦ simp k (
          delete_acked-IsValid (register_token r token) token ack
            (register_token-IsValid r token v))
    ])
  ])
]

register_with-IsValid :
    (r : Relay) (headers : Headers) (token : Text) (admin : Option Text)
    → IsValid r
    → IsValid (register_with r headers token admin).0
unfolding register_with
register_with-IsValid r headers token none v = v
register_with-IsValid r headers token (some admin) v =
    elim (Bool-cases (not (is_admin admin (bearer headers.authorization)))) [
      | inl y ↦ simp y v
      | inr n ↦ simp n (elim (Bool-cases (ltb (length token) 16)) [
        | inl y ↦ simp y v
        | inr m ↦ simp m (register_token-IsValid r token v)
      ])
    ]

handle-IsValid : (r : Relay) (q : Request) → IsValid r → IsValid (handle r q).0
unfolding handle arc_callback register
handle-IsValid r (callback headers body) v =
    callback_for-IsValid r body (extract_callback_token headers) v
handle-IsValid r (pull_request token after ack) v = pull-IsValid r token after ack v
handle-IsValid r (register_request headers token) v =
    register_with-IsValid r headers token r.admin_token v

-- After any requests the keys in the queue rise and none is above the last one given, so a new one
-- is new, and no payload is stored for a token that is not registered.
pub serve-IsValid : (r : Relay) (qs : List Request) → IsValid r → IsValid (serve r qs)
unfolding serve
serve-IsValid r [] v = v
serve-IsValid r (q ∷ qs) v = serve-IsValid (handle r q).0 qs (handle-IsValid r q v)
