-- ===== src/SpendGate/Assess/Full.antt =====
-- A full read, and the coins that it leaves unread.
use bsv_wallet_cli.Prelude.{
  ℕ, suc, ◌+◌, ◌%◌, leb, length-append, ◌-◌, ◌≡◌, refl, sym, ap, ◌∙◌, subst, Bool, true, false,
  ◌&&◌, not, Option, none, some, List, [], ◌∷◌, ◌++◌, Result, ok, ◌>>=◌, ◌⊎◌, inl, inr, Bool-cases,
  arith, All, All-select, All-take, All-drop, All-of, any, is_some, select, take, drop, length,
}
use bsv_wallet_cli.Prelude.Text.{Text, text_eq, u32_mod}
use bsv_wallet_cli.SpendGate.Hold.{CreatorReading, GateOptions, hold_reason}
use bsv_wallet_cli.SpendGate.Store.{Candidate}
use bsv_wallet_cli.SpendGate.Assess.{
  Assessment, Capped, is_kept, by_value, indexed, Creator, Readings, Reader, reading_of, contains,
  by_creator, judge_coin, place, is_faulted, reread, retry_faulted, unread_batch, read_batch,
  judge_now, visit, visit_all, first_reader, assess_inner, cap_offer, part, offer_cap,
}
use bsv_wallet_cli.SpendGate.Assess.Creators.{
  Lists, Lists-append, Lists-select, Lists-any, take_all, by_creator_lem, by_creator-All,
}
use bsv_wallet_cli.SpendGate.Assess.Cap.{capped_coins}

-- The code gives a value with the property.
abbrev pub Yields : {E A : Type 0} → (A → Type 0) → Result E A → Type 0
Yields {E} {A} P r = (a : A) × (r ≡ ok a) × P a

Yields-bind :
    {E A B : Type 0} (P : A → Type 0) (Q : B → Type 0) (r : Result E A) (f : A → Result E B)
    → Yields P r
    → ((a : A) → P a → Yields Q (f a))
    → Yields Q (r >>= f)
Yields-bind P Q r f (a, e, p) h = subst (λ x. Yields Q (x >>= f)) (sym e) (h a p)

-- Nothing is left unread, and the cap has not been asked.
abbrev Fresh : Assessment → Type 0
Fresh a = (a.unread ≡ []) × (a.capped ≡ none)

-- The header service's answers list the creators asked for, where `Q` holds of each.
module _ {E : Type 0} (Q : Creator → Type 0) (read : ℕ → List Creator → Result E Readings)
    (opts : GateOptions)
    (answers : (n : ℕ) (batch : List Creator)
      → All Q batch
      → Yields (λ rs. Lists rs batch) (read n batch))
    (creators : List Creator) (readable : All Q creators) where
  abbrev IsRead : Reader → Type 0
  IsRead rd = Fresh rd.out × Lists rd.readings creators

  abbrev IsFull : Reader → Type 0
  IsFull rd = Fresh rd.out × ((rd.next ≡ 0) ⊎ Lists rd.readings creators)

  reread-IsRead :
      (fs : List Creator) (rd : Reader) → All Q fs → IsRead rd → Yields IsRead (reread read fs rd)
  unfolding reread
  reread-IsRead [] rd q i = (rd, refl, i)
  reread-IsRead (f ∷ fs) rd q i =
      Yields-bind (λ rs. Lists rs (f ∷ fs)) IsRead (read rd.calls (f ∷ fs)) _
        (answers rd.calls (f ∷ fs) q)
        λ again l. (_, refl, (i.0, Lists-append again rd.readings creators i.1))

  retry_faulted-IsRead :
      (retry : Bool) (batch : List Creator) (rd : Reader)
      → All Q batch
      → IsRead rd
      → Yields IsRead (retry_faulted read retry batch rd)
  unfolding retry_faulted
  retry_faulted-IsRead retry batch rd q i =
      elim (Bool-cases (retry && not rd.out.headers_retried)) [
        | inl y ↦ simp y (
            reread-IsRead (select (λ (t, p). is_faulted (reading_of t rd.readings)) batch) rd
              (All-select Q (λ (t, p). is_faulted (reading_of t rd.readings)) batch q) i)
        | inr n ↦ simp n (rd, refl, i)
      ]

  unread_batch-All : (rd : Reader) → All Q (unread_batch read creators none rd)
  unfolding unread_batch
  unread_batch-All rd =
      All-select Q (λ (t, p). not (contains t rd.readings))
        (take (length creators - rd.next) (drop rd.next creators))
        (All-take Q (length creators - rd.next) (drop rd.next creators)
          (All-drop Q rd.next creators readable))

  read_batch-IsRead :
      (retry : Bool) (rd : Reader)
      → Fresh rd.out
      → rd.next ≡ 0
      → Yields IsRead (read_batch read creators none retry rd)
  unfolding read_batch unread_batch
  read_batch-IsRead retry rd u z =
      let batch = unread_batch read creators none rd in
      let q : All Q batch = unread_batch-All rd in
      Yields-bind (λ rs. Lists rs batch) IsRead (read rd.calls batch) _ (answers rd.calls batch q)
        λ rs l. retry_faulted-IsRead retry batch _ q (
          u,
          Lists-select rs rd.readings creators (
              subst (λ cs. Lists rs (select (λ (t, p). not (contains t rd.readings)) cs))
                (ap (λ n. take (length creators - n) (drop n creators)) z ∙ take_all creators) l),
        )

  place-Fresh :
      (c : Candidate) (r : CreatorReading) (o : Option Text) (a : Assessment)
      → Fresh a
      → Fresh (place false c r o a)
  unfolding place
  place-Fresh c r none a f = f
  place-Fresh c r (some reason) a f = f

  judge_coin-Fresh :
      (c : Candidate) (o : Option CreatorReading) (a : Assessment)
      → is_some o ≡ true
      → Fresh a
      → Fresh (judge_coin opts false c o a)
  unfolding judge_coin
  judge_coin-Fresh c none a s f = absurd (cc)
  judge_coin-Fresh c (some r) a s f =
      place-Fresh c r (hold_reason r c.origin c.txid (c.vout % u32_mod) opts) a f

  visit-IsFull :
      (retry : Bool) (c : Candidate) (rd : Reader)
      → any (λ (t, p). text_eq t c.txid) creators ≡ true
      → IsFull rd
      → Yields IsFull (visit read opts creators none retry c rd)
  unfolding visit judge_now
  visit-IsFull retry c rd m (u, i) = elim (Bool-cases c.frozen) [
    | inl y ↦ simp y (_, refl, (u, i))
    | inr thawed ↦ simp thawed (elim (Bool-cases (contains c.txid rd.readings)) [
      | inl y ↦ simp y (_, refl, (judge_coin-Fresh c (reading_of c.txid rd.readings) rd.out y u, i))
      | inr n ↦
          let unread : rd.next ≡ 0 = elim i [
            | inl z ↦ z
            | inr l ↦ absurd (let y = Lists-any rd.readings creators c.txid m l in cc)
          ] in
          simp n (
            Yields-bind IsRead IsFull (read_batch read creators none retry rd) _
              (read_batch-IsRead retry rd u unread)
              λ rd' k.
                let y = Lists-any rd'.readings creators c.txid m k.1 in
                (
                  _,
                  refl,
                  (judge_coin-Fresh c (reading_of c.txid rd'.readings) rd'.out y k.0, inr k.1),
                ))
    ])
  ]

  visit_all-IsFull :
      (retry : Bool) (cs : List Candidate) (rd : Reader)
      → All (λ (c : Candidate). any (λ (t, p). text_eq t c.txid) creators ≡ true) cs
      → IsFull rd
      → Yields IsFull (visit_all read opts creators none retry cs rd)
  unfolding visit_all
  visit_all-IsFull retry [] rd m f = (rd, refl, f)
  visit_all-IsFull retry (c ∷ cs) rd m f =
      Yields-bind IsFull IsFull (visit read opts creators none retry c rd) _
        (visit-IsFull retry c rd m.0 f) λ rd' g. visit_all-IsFull retry cs rd' m.1 g

part-unread :
    (kept : List (ℕ × ℕ)) (i : ℕ) (os : List (ℕ × ℕ)) (a : Assessment) (capped : Capped)
    → length (part kept i os a capped).unread + capped.coins
      ≡ length a.unread + capped_coins (part kept i os a capped).capped
unfolding part
part-unread kept i [] a capped = refl
part-unread kept i (o ∷ os) a capped = elim (Bool-cases (is_kept kept i)) [
  | inl y ↦ simp y (part-unread kept (suc i) os (record a { offered = a.offered ++ o ∷ [] }) capped)
  | inr n ↦ simp n (
      omega (
        arith,
        part-unread kept (suc i) os (record a { unread = a.unread ++ o.0 ∷ [] })
            (record capped { coins = capped.coins + 1; satoshis = capped.satoshis + o.1 }),
        length-append a.unread (o.0 ∷ []),
      ))
]

-- After the cap, the coins unread are those that it counts.
abbrev pub OnlyCapped : Assessment → Type 0
OnlyCapped a = length a.unread ≡ capped_coins a.capped

cap_offer-OnlyCapped : (a : Assessment) (cap : ℕ) → Fresh a → OnlyCapped (cap_offer a cap)
unfolding cap_offer
cap_offer-OnlyCapped a cap (u, n) = elim (Bool-cases (leb (length a.offered) cap)) [
  | inl y ↦ simp y (ap (λ ns. length ns) u ∙ sym (ap capped_coins n))
  | inr m ↦
      let kept = take cap (by_value (indexed 0 a.offered)) in
      let none_yet : length a.unread ≡ 0 = ap (λ ns. length ns) u in
      simp m (
        omega (
          arith,
          none_yet,
          part-unread kept 0 a.offered (record a { offered = [] })
              (record { coins = 0; satoshis = 0; cap = cap }),
        ))
]

-- The same, where the answers list what `Q` holds of, and `Q` holds of each candidate's creator.
pub assess_inner-full_of :
    {E : Type 0} (Q : Creator → Type 0) (read : ℕ → List Creator → Result E Readings)
    (opts : GateOptions)
    (answers : (n : ℕ) (batch : List Creator)
      → All Q batch
      → Yields (λ rs. Lists rs batch) (read n batch))
    (retry : Bool) (all : List Candidate) (calls : ℕ)
    → All (λ (c : Candidate). Q (c.txid, c.proof)) all
    → Yields (λ (r : Assessment × ℕ). OnlyCapped r.0) (assess_inner read opts none retry all calls)
unfolding assess_inner
assess_inner-full_of Q read opts answers retry all calls q =
    let m = by_creator-All Q all q in
    Yields-bind (IsFull Q read opts answers (by_creator all) m)
      (λ (r : Assessment × ℕ). OnlyCapped r.0)
      (visit_all read opts (by_creator all) none retry all (first_reader calls)) _
      (visit_all-IsFull Q read opts answers (by_creator all) m retry all (first_reader calls)
        (by_creator_lem all) ((refl, refl), inl refl))
      λ rd f. (_, refl, cap_offer-OnlyCapped rd.out offer_cap f.0)

-- A read without a need, which is the gate's second, succeeds if the header service's every answer
-- lists the creators it was asked for, and leaves no coin unread but those that the cap counts.
pub assess_inner-full :
    {E : Type 0} (read : ℕ → List Creator → Result E Readings) (opts : GateOptions)
    (answers : (n : ℕ) (batch : List Creator) → Yields (λ rs. Lists rs batch) (read n batch))
    (retry : Bool) (all : List Candidate) (calls : ℕ)
    → Yields (λ (r : Assessment × ℕ). OnlyCapped r.0) (assess_inner read opts none retry all calls)
assess_inner-full read opts answers retry all calls =
    assess_inner-full_of (λ c. Unit) read opts (λ n batch _. answers n batch) retry all calls
      (All-of (λ c. Unit) (λ c. tt) all)
