-- ===== src/SpendGate/Assess/Accounts.antt =====
-- Where an assessment enters each coin.
use bsv_wallet_cli.Prelude.{
  ℕ, suc, ◌+◌, ◌%◌, ◌≡◌, refl, ap, ◌∙◌, Option, none, some, Bool, true, false, ◌&&◌, not, List, [],
  ◌∷◌, ◌++◌, Result, arith, ◌==◌, if◌then◌else◌, sum_by, sum_by-append, Bool-cases, inl, inr,
  length, take, leb, select, OnOk, OnOk-bind, OnOk-ok, subst,
}
use native.Mathlib.Nat.{add_assoc}
use bsv_wallet_cli.Prelude.Text.{Text, u32_mod}
use bsv_wallet_cli.SpendGate.Hold.{CreatorReading, GateOptions, HeldCoin, hold_reason}
use bsv_wallet_cli.SpendGate.Store.{Candidate}
use bsv_wallet_cli.SpendGate.Assess.{
  Assessment, Capped, Creator, Readings, Reader, reading_of, contains, place, judge_coin, judge_now,
  is_faulted, reread, retry_faulted, unread_batch, read_batch, visit, visit_all, covers, by_creator,
  first_reader, part, cap_offer, assess_inner, offer_cap, is_kept, by_value, indexed,
}

abbrev pub one : ℕ → ℕ → ℕ
one id n = if n == id then 1 else 0

-- How often an output id is entered: offered, held or unread.
abbrev pub entered : ℕ → Assessment → ℕ
entered id a =
    sum_by (λ (o : ℕ × ℕ). one id o.0) a.offered
    + sum_by (λ (h : HeldCoin). one id h.output_id) a.held
    + sum_by (one id) a.unread

abbrev pub stands : ℕ → List Candidate → ℕ
stands id cs = sum_by (λ (c : Candidate). one id c.output_id) cs

module _ {E : Type 0} (read : ℕ → List Creator → Result E Readings) (opts : GateOptions)
    (id : ℕ) where
  -- The reader has entered what `before` had, and one more coin.
  abbrev Adds : ℕ → Candidate → Reader → Type 0
  Adds before c rd = entered id rd.out ≡ before + one id c.output_id

  judge_coin-Adds :
      (covered : Bool) (c : Candidate) (o : Option CreatorReading) (a : Assessment)
      → entered id (judge_coin opts covered c o a) ≡ entered id a + one id c.output_id
  unfolding judge_coin
  judge_coin-Adds covered c none a =
      omega (arith, sum_by-append (one id) a.unread (c.output_id ∷ []))
  judge_coin-Adds covered c (some r) a =
      place-adds covered (hold_reason r c.origin c.txid (c.vout % u32_mod) opts)
    where
      place-adds :
          (covered : Bool) (m : Option Text)
          → entered id (place covered c r m a) ≡ entered id a + one id c.output_id
      place-adds true none = omega (arith, sum_by-append (one id) a.unread (c.output_id ∷ []))
      place-adds false none = omega (
        arith,
        sum_by-append (λ (o : ℕ × ℕ). one id o.0) a.offered ((c.output_id, c.satoshis) ∷ []),
      )
      place-adds covered (some m) =
          omega (arith, sum_by-append (λ (h : HeldCoin). one id h.output_id) a.held (_ ∷ []))

  abbrev Same : ℕ → Reader → Type 0
  Same before rd = entered id rd.out ≡ before

  reread-Same :
      (fs : List Creator) (rd : Reader) → OnOk (Same (entered id rd.out)) (reread read fs rd)
  unfolding reread
  reread-Same [] rd = refl
  reread-Same (f ∷ fs) rd =
      OnOk-bind (Same (entered id rd.out)) (read rd.calls (f ∷ fs)) _ (λ again e. refl)

  retry_faulted-Same :
      (retry : Bool) (batch : List Creator) (rd : Reader)
      → OnOk (Same (entered id rd.out)) (retry_faulted read retry batch rd)
  unfolding retry_faulted
  retry_faulted-Same retry batch rd = elim (Bool-cases (retry && not rd.out.headers_retried)) [
    | inl y ↦
        simp y (reread-Same (select (λ (t, p). is_faulted (reading_of t rd.readings)) batch) rd)
    | inr n ↦ simp n refl
  ]

  read_batch-Same :
      (creators : List Creator) (need : Option ℕ) (retry : Bool) (rd : Reader)
      → OnOk (Same (entered id rd.out)) (read_batch read creators need retry rd)
  unfolding read_batch
  read_batch-Same creators need retry rd =
      let batch = unread_batch read creators need rd in
      OnOk-bind (Same (entered id rd.out)) (read rd.calls batch) _
        (λ answers e. retry_faulted-Same retry batch _)

  judge_now-Adds :
      (covered : Bool) (c : Candidate) (rd : Reader)
      → Adds (entered id rd.out) c (judge_now read opts covered c rd)
  unfolding judge_now
  judge_now-Adds covered c rd = judge_coin-Adds covered c (reading_of c.txid rd.readings) rd.out

  visit-Adds :
      (creators : List Creator) (need : Option ℕ) (retry : Bool) (c : Candidate) (rd : Reader)
      → OnOk (Adds (entered id rd.out) c) (visit read opts creators need retry c rd)
  unfolding visit
  visit-Adds creators need retry c rd = elim (Bool-cases c.frozen) [
    | inl y ↦
        simp y
          (omega (arith, sum_by-append (λ (h : HeldCoin). one id h.output_id) rd.out.held (_ ∷ [])))
    | inr thawed ↦ simp thawed (elim (Bool-cases (contains c.txid rd.readings)) [
      | inl y ↦ simp y (judge_now-Adds (covers need rd.out) c rd)
      | inr n ↦ simp n (elim (Bool-cases (covers need rd.out)) [
        | inl y ↦ simp y (omega (arith, sum_by-append (one id) rd.out.unread (c.output_id ∷ [])))
        | inr m ↦ simp m (
            OnOk-bind (Adds (entered id rd.out) c) (read_batch read creators need retry rd) _
              λ rd' e.
                judge_now-Adds false c rd'
                ∙ ap (λ (n : ℕ). n + one id c.output_id)
                    (OnOk-ok (Same (entered id rd.out)) (read_batch read creators need retry rd)
                      (read_batch-Same creators need retry rd) e))
      ])
    ])
  ]

  visit_all-adds :
      (creators : List Creator) (need : Option ℕ) (retry : Bool) (cs : List Candidate) (rd : Reader)
      → OnOk
          (λ rd'. entered id rd'.out ≡ entered id rd.out + stands id cs)
          (visit_all read opts creators need retry cs rd)
  unfolding visit_all
  visit_all-adds creators need retry [] rd = omega arith
  visit_all-adds creators need retry (c ∷ cs) rd =
      OnOk-bind _ (visit read opts creators need retry c rd) _ λ rd' e.
        subst
          (λ n. OnOk (λ r. entered id r.out ≡ n) (visit_all read opts creators need retry cs rd'))
          (ap (λ (n : ℕ). n + stands id cs)
              (OnOk-ok (Adds (entered id rd.out) c) (visit read opts creators need retry c rd)
                (visit-Adds creators need retry c rd) e)
            ∙ add_assoc _ _ _)
          (visit_all-adds creators need retry cs rd')

  abbrev offers : List (ℕ × ℕ) → ℕ
  offers os = sum_by (λ (o : ℕ × ℕ). one id o.0) os

  part-enters :
      (kept : List (ℕ × ℕ)) (i : ℕ) (os : List (ℕ × ℕ)) (a : Assessment) (capped : Capped)
      → entered id (part kept i os a capped) ≡ entered id a + offers os
  unfolding part
  part-enters kept i [] a capped = omega arith
  part-enters kept i (o ∷ os) a capped = elim (Bool-cases (is_kept kept i)) [
    | inl y ↦ simp y (
        omega (
          arith,
          part-enters kept (suc i) os (record a { offered = a.offered ++ o ∷ [] }) capped,
          sum_by-append (λ (o : ℕ × ℕ). one id o.0) a.offered (o ∷ []),
        ))
    | inr n ↦ simp n (
        omega (
          arith,
          part-enters kept (suc i) os (record a { unread = a.unread ++ o.0 ∷ [] })
              (record capped { coins = capped.coins + 1; satoshis = capped.satoshis + o.1 }),
          sum_by-append (one id) a.unread (o.0 ∷ []),
        ))
  ]

  cap_offer-enters : (a : Assessment) (cap : ℕ) → entered id (cap_offer a cap) ≡ entered id a
  unfolding cap_offer
  cap_offer-enters a cap = elim (Bool-cases (leb (length a.offered) cap)) [
    | inl y ↦ simp y
    | inr n ↦ simp n (
        omega (
          arith,
          part-enters (take cap (by_value (indexed 0 a.offered))) 0 a.offered
              (record a { offered = [] }) (record { coins = 0; satoshis = 0; cap = cap }),
        ))
  ]

  -- An assessment enters each output id as often as the candidates have it: as offered, as held or
  -- as unread, the cap included.
  pub assess_inner-enters :
      (need : Option ℕ) (retry : Bool) (all : List Candidate) (calls : ℕ)
      → OnOk
          (λ (r : Assessment × ℕ). entered id r.0 ≡ stands id all)
          (assess_inner read opts need retry all calls)
  unfolding assess_inner
  assess_inner-enters need retry all calls =
      OnOk-bind (λ (r : Assessment × ℕ). entered id r.0 ≡ stands id all)
        (visit_all read opts (by_creator all) need retry all (first_reader calls)) _
        λ rd e.
          cap_offer-enters rd.out offer_cap
          ∙ OnOk-ok (λ rd'. entered id rd'.out ≡ stands id all)
              (visit_all read opts (by_creator all) need retry all (first_reader calls))
              (subst
                (λ n.
                  OnOk (λ r. entered id r.out ≡ n)
                    (visit_all read opts (by_creator all) need retry all (first_reader calls)))
                (omega arith) (visit_all-adds (by_creator all) need retry all (first_reader calls)))
              e
