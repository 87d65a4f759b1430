-- ===== src/Tracker/Listed.antt =====
-- The creators that `read_creators` answers for, and the gate's full read over it.
use bsv_wallet_cli.Prelude.{
  ℕ, ◌≡◌, refl, ◌∙◌, subst, Option, none, Bool, true, List, [], ◌∷◌, map, ok, inl, inr, Bool-cases,
  All,
}
use bsv_wallet_cli.Prelude.Text.{Text, text_eq, text_eq_refl, text_eq→eq, to_ascii_lowercase}
use bsv_wallet_cli.SpendGate.Hold.{GateOptions}
use bsv_wallet_cli.SpendGate.Store.{Candidate}
use bsv_wallet_cli.SpendGate.Assess.{
  Assessment, Creator, Readings, reading_of, contains, assess_inner,
}
use bsv_wallet_cli.SpendGate.Assess.Creators.{Lists}
use bsv_wallet_cli.SpendGate.Assess.Full.{Yields, OnlyCapped, assess_inner-full_of}
use bsv_wallet_cli.Tracker.Headers.{HeaderSnapshot, HeaderService}
use bsv_wallet_cli.Tracker.Rows.{Machine, TrackedRow, unbuilt_row}
use bsv_wallet_cli.Tracker.Creators.{
  read_row, load_row, with_path, row_or_new, creator_row, insert_readings, read_creators,
}

-- A creator's transaction id as the store writes it.
abbrev pub IsLower : Creator → Type 0
IsLower c = to_ascii_lowercase c.0 ≡ c.0

module _ {State Hint Proof Event Node : Type 0} (crate : Machine State Hint Proof Event Node) where
  contains-cons :
      (t u : Text) (rs : Readings) (r : _) → contains t rs ≡ true → contains t ((u, r) ∷ rs) ≡ true
  unfolding reading_of
  contains-cons t u rs r h = elim (Bool-cases (text_eq u t)) [
    | inl y ↦ simp y refl
    | inr n ↦ simp n h
  ]

  insert_readings-keeps :
      (snapshot : HeaderSnapshot) (floor : Option ℕ) (depth : ℕ)
      (rows : List (TrackedRow Hint Node)) (rs : Readings) (t : Text)
      → contains t rs ≡ true
      → contains t (insert_readings crate snapshot floor depth rows rs) ≡ true
  unfolding insert_readings
  insert_readings-keeps snapshot floor depth [] rs t h = h
  insert_readings-keeps snapshot floor depth (r ∷ rows) rs t h =
      insert_readings-keeps snapshot floor depth rows _ t
        (contains-cons t r.txid rs (read_row crate snapshot floor depth r) h)

  contains-own : (t : Text) (rs : Readings) (r : _) → contains t ((t, r) ∷ rs) ≡ true
  unfolding reading_of
  contains-own t rs r = simp (text_eq_refl t) refl

  with_path-txid :
      (path : Option Text) (row : TrackedRow Hint Node) → (with_path crate path row).txid ≡ row.txid
  unfolding with_path
  with_path-txid path row = refl

  load_row-txid :
      (states : List (TrackedRow Hint Node)) (txid : Text)
      → to_ascii_lowercase txid ≡ txid
      → (row_or_new crate (load_row crate states txid) txid).txid ≡ txid
  unfolding load_row row_or_new unbuilt_row
  load_row-txid [] txid h = h
  load_row-txid (r ∷ states) txid h = elim (Bool-cases (text_eq r.txid (to_ascii_lowercase txid))) [
    | inl y ↦ simp y (text_eq→eq r.txid (to_ascii_lowercase txid) y ∙ h)
    | inr n ↦ simp n (load_row-txid states txid h)
  ]

  creator_row-txid :
      (states : List (TrackedRow Hint Node)) (c : Creator)
      → IsLower c
      → (creator_row crate states c).txid ≡ c.0
  unfolding creator_row
  creator_row-txid states c h = with_path-txid c.1 _ ∙ load_row-txid states c.0 h

  insert_readings-Lists :
      (snapshot : HeaderSnapshot) (floor : Option ℕ) (depth : ℕ)
      (states : List (TrackedRow Hint Node)) (cs : List Creator) (rs : Readings)
      → All IsLower cs
      → Lists (insert_readings crate snapshot floor depth (map (creator_row crate states) cs) rs) cs
  unfolding insert_readings
  insert_readings-Lists snapshot floor depth states [] rs l = tt
  insert_readings-Lists snapshot floor depth states (c ∷ cs) rs l = (
    insert_readings-keeps snapshot floor depth (map (creator_row crate states) cs) _ c.0 (
        subst
          (λ t.
            contains t (
              (
                (creator_row crate states c).txid,
                read_row crate snapshot floor depth (creator_row crate states c),
              )
              ∷ rs)
            ≡ true)
          (creator_row-txid states c l.0) (contains-own _ rs _)),
    insert_readings-Lists snapshot floor depth states cs _ l.1,
  )

  pub read_creators-Lists :
      (states : List (TrackedRow Hint Node)) (splits : List (Text × ℕ)) (service : HeaderService)
      (depth : ℕ) (cs : List Creator)
      → All IsLower cs
      → Lists (read_creators crate states splits service depth cs) cs
  unfolding read_creators
  read_creators-Lists states splits service depth cs l =
      insert_readings-Lists _ _ depth states cs [] l

  -- The gate's full read over the tracker's readings, whatever the tracker stores and the header
  -- service answers at each call, gives an assessment that leaves no coin unread but those that the
  -- cap counts, if the candidates' creators are written in lower case.
  pub assess_inner-read_creators :
      {E : Type 0} (states : ℕ → List (TrackedRow Hint Node)) (splits : ℕ → List (Text × ℕ))
      (service : ℕ → HeaderService) (opts : GateOptions) (retry : Bool) (all : List Candidate)
      (calls : ℕ)
      → All (λ (c : Candidate). IsLower (c.txid, c.proof)) all
      → Yields {E = E}
          (λ (r : Assessment × ℕ). OnlyCapped r.0)
          (assess_inner
            (λ n batch.
              ok (read_creators crate (states n) (splits n) (service n) opts.spend_depth batch))
            opts
            none
            retry
            all
            calls)
  assess_inner-read_creators states splits service opts retry all calls l =
      assess_inner-full_of IsLower
        (λ n batch.
          ok (read_creators crate (states n) (splits n) (service n) opts.spend_depth batch))
        opts
        (λ n batch q.
          (_, refl, read_creators-Lists (states n) (splits n) (service n) opts.spend_depth batch q))
        retry all calls l
