-- ===== src/Ingest/Actions.antt =====
-- What a pushed payload does to the store, and when a proof is said to be stored.
use bsv_wallet_cli.Prelude.{
  ◌≤◌, ◌≡◌, ◌↔◌, ◌⊎◌, inl, inr, refl, ap, sym, subst, Result, err, Option, none, some, true, false,
  arith, length, ltb, Bool-cases, Option-cases, Result-cases, ok,
}
use bsv_wallet_cli.Prelude.Text.{Text, text_eq_iff}
use bsv_wallet_cli.SpendGate.Word.{Json}
use bsv_wallet_cli.Relay.{Headers, bearer, or_else, max_body}
use bsv_wallet_cli.Ingest.{
  IngestError, Toolbox, Applied, mined_verdict, invalid_verdict, other_verdict, proof_ingested,
  action_for, read_payload, ingest_arc_payload, offers_path, is_mined, arc_callback, apply_body,
  after_apply, is_token, on_json, is_invalid, ArcadeVerdict,
}

-- The push carries this token, and its body is an event that the store was given.
pub record Pushed {World Event : Type 0} (toolbox : Toolbox World Event)
    (from_slice : Text → Option Json) (expected : Option Text) (headers : Headers) (body : Text)
    (w after : World) : Type 0 where
  pub token : Text
  pub expected_is : expected ≡ some token
  pub provided : or_else (bearer headers.authorization) headers.x_callback_token ≡ some token
  pub small : length body ≤ max_body
  pub payload : Json
  pub parsed : from_slice body ≡ some payload
  pub event : Event
  pub event_is : read_payload toolbox payload ≡ ok event
  pub after_is : after ≡ (toolbox.apply_event event w).0

verdict-cases :
    (v : ArcadeVerdict) → (v ≡ mined_verdict) ⊎ ((v ≡ invalid_verdict) ⊎ (v ≡ other_verdict))
verdict-cases mined_verdict = inl refl
verdict-cases invalid_verdict = inr (inl refl)
verdict-cases other_verdict = inr (inr refl)

is_token-eq : (token : Text) (o : Option Text) → is_token token o ≡ true → o ≡ some token
unfolding is_token
is_token-eq token none h = cc
is_token-eq token (some t) h = ap some ((text_eq_iff t token).0 h)

module _ {World Event : Type 0} (toolbox : Toolbox World Event) where
  after_apply-store :
      (event : Event) (a : World × Option Applied) → (after_apply toolbox event a).0 ≡ a.0
  unfolding after_apply
  after_apply-store event (w, none) = refl
  after_apply-store event (w, some applied) = refl

  ingested :
      (payload : Json) (w : World)
      → ((ingest_arc_payload toolbox payload w).0 ≡ w)
        ⊎ ((event : Event) × (read_payload toolbox payload ≡ ok event)
            × ((ingest_arc_payload toolbox payload w).0 ≡ (toolbox.apply_event event w).0))
  unfolding ingest_arc_payload apply_body
  ingested payload w = elim (Result-cases (read_payload toolbox payload)) [
    | inl (event, e) ↦ inr (event, e, rw e (after_apply-store event (toolbox.apply_event event w)))
    | inr (x, e) ↦ inl (simp e)
  ]

  -- What makes the toolbox's answer on an event a stored proof.
  abbrev pub IsProof : Event → Applied → Type 0
  IsProof event applied =
      (toolbox.is_unmined (toolbox.extra_info event) ≡ false)
      × (toolbox.arcade_verdict (toolbox.tx_status event) ≡ mined_verdict)
      × (offers_path (toolbox.merkle_path event) ≡ true)
      × (applied.reask ≡ false)

  action_for-IsProof :
      (event : Event) (applied : Applied)
      → (action_for toolbox event applied ≡ proof_ingested) ↔ IsProof event applied
  unfolding action_for is_mined is_invalid
  action_for-IsProof event applied =
      elim (verdict-cases (toolbox.arcade_verdict (toolbox.tx_status event))) [
        | inl m ↦ rw m (ground arith)
        | inr (inl i) ↦ rw i (ground arith)
        | inr (inr o) ↦ rw o (ground arith)
      ]

  after_apply-IsProof :
      (event : Event) (a : World × Option Applied)
      → ((after_apply toolbox event a).1 ≡ ok proof_ingested)
        ↔ ((applied : Applied) × (a.1 ≡ some applied) × IsProof event applied)
  unfolding after_apply
  after_apply-IsProof event (w, none) = (λ h. cc, λ c. cc)
  after_apply-IsProof event (w, some x) = (
    λ h. (x, refl, (action_for-IsProof event x).0 cc),
    λ c.
        let (y, s, g) = c in
        let e : x ≡ y = cc in
        ap ok ((action_for-IsProof event x).1 (subst (IsProof event) (sym e) g)),
  )

  abbrev pub Stored : Result IngestError Event → World → Type 0
  Stored r w =
      (event : Event) × (applied : Applied) × (r ≡ ok event)
      × ((toolbox.apply_event event w).1 ≡ some applied)
      × IsProof event applied

  apply_body-proof :
      (r : Result IngestError Event) (w : World)
      → ((apply_body toolbox r w).1 ≡ ok proof_ingested) ↔ Stored r w
  unfolding apply_body
  apply_body-proof (ok event) w = (
    λ h.
        let (applied, s, g) = (after_apply-IsProof event (toolbox.apply_event event w)).0 h in
        (event, applied, refl, s, g),
    λ c.
        let (read, applied, r, s, g) = c in
        let e : read ≡ event = cc in
        (after_apply-IsProof event (toolbox.apply_event event w)).1 (
          applied,
          subst (λ x. (toolbox.apply_event x w).1 ≡ some applied) e s,
          subst (λ x. IsProof x applied) e g,
        ),
  )
  apply_body-proof (err x) w = (λ h. cc, λ c. cc)

  -- A proof is said to be ingested exactly where the payload reads as an event that the toolbox
  -- applied without asking for the proof again, whose word is mined, which has a path that is not
  -- empty and which takes no block back.
  pub ingest_arc_payload-proof_iff :
      (payload : Json) (w : World)
      → ((ingest_arc_payload toolbox payload w).1 ≡ ok proof_ingested)
        ↔ Stored (read_payload toolbox payload) w
  unfolding ingest_arc_payload
  ingest_arc_payload-proof_iff payload w = apply_body-proof (read_payload toolbox payload) w

  module _ (from_slice : Text → Option Json) where
    on_json-Pushed :
        (expected : Text) (headers : Headers) (body : Text) (w : World)
        → or_else (bearer headers.authorization) headers.x_callback_token ≡ some expected
        → length body ≤ max_body
        → ((on_json toolbox from_slice (from_slice body) w).0 ≡ w)
          ⊎ Pushed toolbox from_slice
              (some expected)
              headers
              body
              w
              (on_json toolbox from_slice (from_slice body) w).0
    unfolding on_json
    on_json-Pushed expected headers body w p b = elim (Option-cases (from_slice body)) [
      | inl n ↦ inl (simp n)
      | inr (payload, j) ↦ elim (ingested payload w) [
        | inl same ↦ inl (rw j same)
        | inr (event, e, a) ↦ inr (record {
          token = expected;
          expected_is = refl;
          provided = p;
          small = b;
          payload = payload;
          parsed = j;
          event = event;
          event_is = e;
          after_is = rw j a;
        })
      ]
    ]

    -- A callback leaves the store as it was, or it came with the wallet's configured token, in a
    -- body that is not too large and reads as JSON with a transaction id of 64 hexadecimal digits
    -- and an event, and the store is as the toolbox left it on applying that event.
    pub arc_callback-Pushed :
        (expected : Option Text) (headers : Headers) (body : Text) (w : World)
        → ((arc_callback toolbox from_slice expected headers body w).0 ≡ w)
          ⊎ Pushed toolbox from_slice expected headers body w
              (arc_callback toolbox from_slice expected headers body w).0
    unfolding arc_callback
    arc_callback-Pushed none headers body w = inl refl
    arc_callback-Pushed (some t) headers body w =
        elim (Bool-cases
          (is_token t (or_else (bearer headers.authorization) headers.x_callback_token))) [
            | inr n ↦ inl (simp n)
            | inl y ↦ simp y (elim (Bool-cases (ltb max_body (length body))) [
              | inl l ↦ inl (simp l)
              | inr n ↦ simp n (
                  on_json-Pushed t headers body w
                    (is_token-eq t (or_else (bearer headers.authorization) headers.x_callback_token)
                      y)
                    (ground arith))
            ])
          ]
