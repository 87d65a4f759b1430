-- ===== src/SpendGate/Assess/Offered.antt =====
-- What stands behind each coin that an assessment offers.
use bsv_wallet_cli.Prelude.{
  ℕ, suc, ◌%◌, ◌≡◌, refl, Option, none, some, Bool, true, false, ◌&&◌, not, List, [], ◌∷◌, ◌++◌,
  Result, ok, All, All-concat, Bool-cases, inl, inr, ◌⊎◌, OnOk, OnOk-bind, OnOk-ok, length, take,
  leb, select,
}
use bsv_wallet_cli.Prelude.Text.{Text, text_eq, u32_mod}
use bsv_wallet_cli.SpendGate.Hold.{CreatorReading, GateOptions, hold_reason}
use bsv_wallet_cli.SpendGate.Hold.Rules.{Offerable, hold_reason-none_iff}
use bsv_wallet_cli.SpendGate.Store.{Candidate}
use bsv_wallet_cli.SpendGate.Assess.{
  Assessment, Capped, Creator, Readings, Reader, reading_of, contains, place, judge_coin, judge_now,
  is_faulted, reread, retry_faulted, unread_batch, read_batch, visit, visit_all, covers, by_creator,
  first_reader, part, cap_offer, assess_inner, offer_cap, is_kept, by_value, indexed,
}

reading_of-append :
    (t : Text) (xs ys : Readings) {r : CreatorReading}
    → reading_of t (xs ++ ys) ≡ some r
    → (reading_of t xs ≡ some r) ⊎ (reading_of t ys ≡ some r)
unfolding reading_of
reading_of-append t [] ys h = inr h
reading_of-append t ((u, s) ∷ xs) ys {r} h = elim (Bool-cases (text_eq u t)) [
  | inl y ↦ inl (rw y (rw y at h))
  | inr n ↦ rw n (reading_of-append t xs ys (rw n at h))
]

module _ {E : Type 0} (read : ℕ → List Creator → Result E Readings) (opts : GateOptions)
    (P : Candidate → Type 0) where
  -- The reading is in an answer of the header service, to a call of whatever number.
  pub record Answered (txid : Text) (reading : CreatorReading) : Type 0 where
    pub call : ℕ
    pub batch : List Creator
    pub answers : Readings
    pub asked : read call batch ≡ ok answers
    pub listed : reading_of txid answers ≡ some reading

  -- Why a coin stands in an offer.
  pub record Backed (o : ℕ × ℕ) : Type 0 where
    pub coin : Candidate
    pub candidate : P coin
    pub id : coin.output_id ≡ o.0
    pub value : coin.satoshis ≡ o.1
    pub thawed : coin.frozen ≡ false
    pub reading : CreatorReading
    pub answered : Answered coin.txid reading
    pub offerable : Offerable reading coin.origin coin.txid (coin.vout % u32_mod) opts

  record Inv (rd : Reader) : Type 0 where
    backed : All Backed rd.out.offered
    answered : (t : Text) (r : CreatorReading) → reading_of t rd.readings ≡ some r → Answered t r

  Answered-append :
      (call : ℕ) (batch : List Creator) (xs ys : Readings)
      → read call batch ≡ ok xs
      → ((t : Text) (r : CreatorReading) → reading_of t ys ≡ some r → Answered t r)
      → (t : Text) (r : CreatorReading) → reading_of t (xs ++ ys) ≡ some r
      → Answered t r
  Answered-append call batch xs ys a old t r h = elim (reading_of-append t xs ys h) [
    | inl new ↦ record { call = call; batch = batch; answers = xs; asked = a; listed = new }
    | inr past ↦ old t r past
  ]

  place-Backed :
      (covered : Bool) (c : Candidate) (r : CreatorReading) (m : Option Text) (a : Assessment)
      → (m ≡ none → Backed (c.output_id, c.satoshis))
      → All Backed a.offered
      → All Backed (place covered c r m a).offered
  unfolding place
  place-Backed true c r none a b h = h
  place-Backed false c r none a b h = All-concat Backed a.offered h (b refl)
  place-Backed covered c r (some reason) a b h = h

  judge_coin-Backed :
      (covered : Bool) (c : Candidate) (o : Option CreatorReading) (a : Assessment)
      → P c
      → c.frozen ≡ false
      → ((r : CreatorReading) → o ≡ some r → Answered c.txid r)
      → All Backed a.offered
      → All Backed (judge_coin opts covered c o a).offered
  unfolding judge_coin
  judge_coin-Backed covered c none a p f an h = h
  judge_coin-Backed covered c (some r) a p f an h =
      place-Backed covered c r (hold_reason r c.origin c.txid (c.vout % u32_mod) opts) a
        (λ e. record {
          coin = c;
          candidate = p;
          id = refl;
          value = refl;
          thawed = f;
          reading = r;
          answered = an r refl;
          offerable = (hold_reason-none_iff r c.origin c.txid (c.vout % u32_mod) opts).0 e;
        })
        h

  judge_now-Inv :
      (covered : Bool) (c : Candidate) (rd : Reader)
      → P c
      → c.frozen ≡ false
      → Inv rd
      → Inv (judge_now read opts covered c rd)
  unfolding judge_now
  judge_now-Inv covered c rd p f i = record {
    backed =
        judge_coin-Backed covered c (reading_of c.txid rd.readings) rd.out p f (i.answered c.txid)
          i.backed;
    answered = i.answered;
  }

  reread-Inv : (fs : List Creator) (rd : Reader) → Inv rd → OnOk Inv (reread read fs rd)
  unfolding reread
  reread-Inv [] rd i = i
  reread-Inv (f ∷ fs) rd i = OnOk-bind Inv (read rd.calls (f ∷ fs)) _ λ again e. record {
    backed = i.backed;
    answered = Answered-append rd.calls (f ∷ fs) again rd.readings e i.answered;
  }

  retry_faulted-Inv :
      (retry : Bool) (batch : List Creator) (rd : Reader)
      → Inv rd
      → OnOk Inv (retry_faulted read retry batch rd)
  unfolding retry_faulted
  retry_faulted-Inv retry batch rd i = elim (Bool-cases (retry && not rd.out.headers_retried)) [
    | inl y ↦
        simp y (reread-Inv (select (λ (t, p). is_faulted (reading_of t rd.readings)) batch) rd i)
    | inr n ↦ simp n i
  ]

  read_batch-Inv :
      (creators : List Creator) (need : Option ℕ) (retry : Bool) (rd : Reader)
      → Inv rd
      → OnOk Inv (read_batch read creators need retry rd)
  unfolding read_batch
  read_batch-Inv creators need retry rd i =
      let batch = unread_batch read creators need rd in
      OnOk-bind Inv (read rd.calls batch) _ λ answers e. retry_faulted-Inv retry batch _ (record {
        backed = i.backed;
        answered = Answered-append rd.calls batch answers rd.readings e i.answered;
      })

  visit-Inv :
      (creators : List Creator) (need : Option ℕ) (retry : Bool) (c : Candidate) (rd : Reader)
      → P c
      → Inv rd
      → OnOk Inv (visit read opts creators need retry c rd)
  unfolding visit
  visit-Inv creators need retry c rd p i = elim (Bool-cases c.frozen) [
    | inl y ↦ simp y (record { backed = i.backed; answered = i.answered })
    | inr thawed ↦ simp thawed (elim (Bool-cases (contains c.txid rd.readings)) [
      | inl y ↦ simp y (judge_now-Inv (covers need rd.out) c rd p thawed i)
      | inr n ↦ simp n (elim (Bool-cases (covers need rd.out)) [
        | inl y ↦ simp y (record { backed = i.backed; answered = i.answered })
        | inr m ↦ simp m (
            OnOk-bind Inv (read_batch read creators need retry rd) _ λ rd' e.
              judge_now-Inv false c rd' p thawed (
                OnOk-ok Inv (read_batch read creators need retry rd)
                  (read_batch-Inv creators need retry rd i) e))
      ])
    ])
  ]

  visit_all-Inv :
      (creators : List Creator) (need : Option ℕ) (retry : Bool) (cs : List Candidate) (rd : Reader)
      → All P cs
      → Inv rd
      → OnOk Inv (visit_all read opts creators need retry cs rd)
  unfolding visit_all
  visit_all-Inv creators need retry [] rd p i = i
  visit_all-Inv creators need retry (c ∷ cs) rd p i =
      OnOk-bind Inv (visit read opts creators need retry c rd) _ λ rd' e.
        visit_all-Inv creators need retry cs rd' p.1 (
          OnOk-ok Inv (visit read opts creators need retry c rd)
            (visit-Inv creators need retry c rd p.0 i) e)

  part-Backed :
      (kept : List (ℕ × ℕ)) (i : ℕ) (os : List (ℕ × ℕ)) (a : Assessment) (capped : Capped)
      → All Backed os
      → All Backed a.offered
      → All Backed (part kept i os a capped).offered
  unfolding part
  part-Backed kept i [] a capped ho ha = ha
  part-Backed kept i (o ∷ os) a capped ho ha = elim (Bool-cases (is_kept kept i)) [
    | inl y ↦ simp y (part-Backed kept (suc i) os _ _ ho.1 (All-concat Backed a.offered ha ho.0))
    | inr n ↦ simp n (part-Backed kept (suc i) os _ _ ho.1 ha)
  ]

  cap_offer-Backed :
      (a : Assessment) (cap : ℕ) → All Backed a.offered → All Backed (cap_offer a cap).offered
  unfolding cap_offer
  cap_offer-Backed a cap h = elim (Bool-cases (leb (length a.offered) cap)) [
    | inl y ↦ simp y h
    | inr n ↦ simp n (part-Backed (take cap (by_value (indexed 0 a.offered))) 0 a.offered _ _ h tt)
  ]

  -- Whatever holds of every candidate holds of the coin behind each offer; it is not frozen, and an
  -- answer of the header service offers it under the rules.
  pub assess_inner-offers :
      (need : Option ℕ) (retry : Bool) (all : List Candidate) (calls : ℕ)
      → All P all
      → OnOk
          (λ (r : Assessment × ℕ). All Backed r.0.offered)
          (assess_inner read opts need retry all calls)
  unfolding assess_inner
  assess_inner-offers need retry all calls p =
      OnOk-bind (λ (r : Assessment × ℕ). All Backed r.0.offered)
        (visit_all read opts (by_creator all) need retry all (first_reader calls)) _
        λ rd e.
          cap_offer-Backed rd.out offer_cap
            (OnOk-ok Inv (visit_all read opts (by_creator all) need retry all (first_reader calls))
              (visit_all-Inv (by_creator all) need retry all (first_reader calls) p
                (record { backed = tt; answered = λ t r h. absurd (unfold reading_of in cc) }))
              e).backed
