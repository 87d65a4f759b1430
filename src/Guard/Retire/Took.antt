-- ===== src/Guard/Retire/Took.antt =====
-- Who took a transaction, by the rows that `broadcaster_took` reads.
use mathlib.Core.List.{Memᴰ}
use bsv_wallet_cli.Prelude.{
  ◌≡◌, refl, ap, subst, Option, none, some, Bool, true, ◌&&◌, List, [], ◌∷◌, arith, any, Bool-cases,
  inl, inr, ◌↔◌,
}
use bsv_wallet_cli.Prelude.Text.{Text, codes, text_eq, text_eq_iff}
use bsv_wallet_cli.Guard.Retire.{
  Records, TxRow, WordRow, is_one_of, is_some_of, is_tx, req_status, word_of, has_completed,
  in_memory, in_tracker, broadcaster_took, taken_req_statuses, taken_memory_statuses,
  taken_tracker_words,
}

-- A broadcaster took the transaction: its request has a status that only an accepted post brings,
-- or a row of the transaction is completed, or a provider of the broadcast memory accepted it, saw
-- it or has it mined, or the tracker's word for it is one of an announced transaction.
pub data Took (rec : Records) (txid : Text) : Type 0 where
  by_request :
      (status : Text)
      → req_status rec.reqs txid ≡ some status
      → Memᴰ status
          (codes "unmined" ∷ codes "callback" ∷ codes "unconfirmed" ∷ codes "completed" ∷ [])
      → Took rec txid
  by_row :
      (t : TxRow)
      → Memᴰ t rec.transactions
      → t.txid ≡ some txid
      → t.status ≡ codes "completed"
      → Took rec txid
  by_memory :
      (rows : List WordRow) (r : WordRow)
      → rec.broadcast_seen ≡ some rows
      → Memᴰ r rows
      → r.txid ≡ txid
      → Memᴰ r.word (codes "accepted" ∷ codes "seen" ∷ codes "mined" ∷ [])
      → Took rec txid
  by_tracker :
      (rows : List WordRow) (word : Text)
      → rec.tracker_states ≡ some rows
      → word_of rows txid ≡ some word
      → Memᴰ word (codes "announced" ∷ codes "seen" ∷ codes "mined" ∷ codes "stale" ∷ [])
      → Took rec txid

module _ {A : Type 0} (f : A → Bool) where
  any-Mem : (xs : List A) → any f xs ≡ true → (x : A) × Memᴰ x xs × (f x ≡ true)
  any-Mem [] h = absurd (cc)
  any-Mem (y ∷ xs) h = elim (Bool-cases (f y)) [
    | inl t ↦ (y, Memᴰ.head refl, t)
    | inr n ↦ let (x, m, t) = any-Mem xs (rw n at h) in (x, Memᴰ.tail m, t)
  ]

  Mem-any : (xs : List A) {x : A} → Memᴰ x xs → f x ≡ true → any f xs ≡ true
  Mem-any [] m h = elim m [ ]
  Mem-any (y ∷ xs) {x} (Memᴰ.head e) h =
      let t : f y ≡ true = subst (λ z. f z ≡ true) e h in rw t refl
  Mem-any (y ∷ xs) (Memᴰ.tail m) h = rw (Mem-any xs m h) (ground arith)

pub is_one_of_iff : (ws : List Text) (s : Text) → (is_one_of ws s ≡ true) ↔ Memᴰ s ws
unfolding is_one_of
is_one_of_iff ws s = (
  λ h.
      let (w, m, e) = any-Mem (λ w. text_eq w s) ws h in
      subst (λ v. Memᴰ v ws) ((text_eq_iff w s).0 e) m,
  λ m. Mem-any (λ w. text_eq w s) ws m ((text_eq_iff s s).1 refl),
)

pub is_some_of_iff :
    (ws : List Text) (o : Option Text)
    → (is_some_of ws o ≡ true) ↔ ((s : Text) × (o ≡ some s) × Memᴰ s ws)
is_some_of_iff ws none = (λ h. absurd (cc), λ (s, e, m). absurd (cc))
is_some_of_iff ws (some t) = (
  λ h. (t, refl, (is_one_of_iff ws t).0 h),
  λ (s, e, m). let same : s ≡ t = cc in (is_one_of_iff ws t).1 (subst (λ v. Memᴰ v ws) same m),
)

is_tx_iff : (txid : Text) (o : Option Text) → (is_tx txid o ≡ true) ↔ (o ≡ some txid)
is_tx_iff txid none = (λ h. cc, λ h. cc)
is_tx_iff txid (some t) =
    (λ h. ap some ((text_eq_iff t txid).0 h), λ h. (text_eq_iff t txid).1 (cc))

module _ (rec : Records) (txid : Text) where
  completed-Took : has_completed rec txid ≡ true → Took rec txid
  unfolding has_completed
  completed-Took h =
      let (t, m, e) =
        any-Mem (λ (t : TxRow). is_tx txid t.txid && text_eq t.status (codes "completed"))
          rec.transactions h in
      by_row t m ((is_tx_iff txid t.txid).0 (ground arith))
        ((text_eq_iff t.status (codes "completed")).0 (ground arith))

  memory-Took :
      (o : Option (List WordRow)) → rec.broadcast_seen ≡ o → in_memory o txid ≡ true → Took rec txid
  unfolding in_memory taken_memory_statuses
  memory-Took none e h = absurd (cc)
  memory-Took (some rows) e h =
      let (r, m, t) =
        any-Mem (λ (r : WordRow). text_eq r.txid txid && is_one_of taken_memory_statuses r.word)
          rows h in
      by_memory rows r e m ((text_eq_iff r.txid txid).0 (ground arith))
        ((is_one_of_iff taken_memory_statuses r.word).0 (ground arith))

  tracker-Took :
      (o : Option (List WordRow))
      → rec.tracker_states ≡ o
      → in_tracker o txid ≡ true
      → Took rec txid
  unfolding in_tracker taken_tracker_words
  tracker-Took none e h = absurd (cc)
  tracker-Took (some rows) e h =
      let (w, f, m) = (is_some_of_iff taken_tracker_words (word_of rows txid)).0 h in
      by_tracker rows w e f m

  broadcaster_took-Took : broadcaster_took rec txid ≡ true → Took rec txid
  unfolding broadcaster_took taken_req_statuses
  broadcaster_took-Took h =
      elim (Bool-cases (is_some_of taken_req_statuses (req_status rec.reqs txid))) [
        | inl y ↦
            let (s, e, m) = (is_some_of_iff taken_req_statuses (req_status rec.reqs txid)).0 y in
            by_request s e m
        | inr a ↦ elim (Bool-cases (has_completed rec txid)) [
          | inl y ↦ completed-Took y
          | inr b ↦ elim (Bool-cases (in_memory rec.broadcast_seen txid)) [
            | inl y ↦ memory-Took rec.broadcast_seen refl y
            | inr c ↦ tracker-Took rec.tracker_states refl (ground arith)
          ]
        ]
      ]

  broadcaster_took_of : Took rec txid → broadcaster_took rec txid ≡ true
  unfolding broadcaster_took taken_req_statuses taken_memory_statuses taken_tracker_words
      has_completed in_memory in_tracker
  broadcaster_took_of (by_request s e m) =
      let y : is_some_of taken_req_statuses (req_status rec.reqs txid) ≡ true =
        (is_some_of_iff taken_req_statuses (req_status rec.reqs txid)).1 (s, e, m) in
      ground arith
  broadcaster_took_of (by_row t m i s) =
      let y : has_completed rec txid ≡ true =
        Mem-any (λ (t : TxRow). is_tx txid t.txid && text_eq t.status (codes "completed"))
          rec.transactions m
          (rw ((is_tx_iff txid t.txid).1 i, (text_eq_iff t.status (codes "completed")).1 s) refl) in
      ground arith
  broadcaster_took_of (by_memory rows r e m i w) =
      let y : in_memory rec.broadcast_seen txid ≡ true = rw e (
        Mem-any (λ (r : WordRow). text_eq r.txid txid && is_one_of taken_memory_statuses r.word)
          rows m
          (rw ((text_eq_iff r.txid txid).1 i, (is_one_of_iff taken_memory_statuses r.word).1 w)
            refl)) in
      ground arith
  broadcaster_took_of (by_tracker rows w e f m) =
      let y : in_tracker rec.tracker_states txid ≡ true =
        rw e ((is_some_of_iff taken_tracker_words (word_of rows txid)).1 (w, f, m)) in
      ground arith

  pub broadcaster_took_iff : (broadcaster_took rec txid ≡ true) ↔ Took rec txid
  broadcaster_took_iff = (broadcaster_took-Took, broadcaster_took_of)
