-- ===== src/SpendGate/Assess.antt =====
-- `Assessment`, `assess_inner` and `cap_offer` of src/spend_gate.rs. `read n batch` is the answer
-- of the `n`th call of `read_creators` (src/tracker_host.rs), which asks the header service: two
-- calls for the same creators may differ. A sum of satoshis is not bounded here: all coins there
-- are sum to less than 2 ^ 51.
pub mod Offered
pub mod Accounts
pub mod Cap
pub mod Creators
pub mod Full
use bsv_wallet_cli.Prelude.{
  ℕ, suc, ◌+◌, ◌-◌, ◌%◌, min, Option, none, some, Bool, true, false, ◌&&◌, not, List, [], ◌∷◌, ◌++◌,
  Result, ok, err, ◌>>=◌, ◌==◌, ltb, leb, if◌then◌else◌, any, is_empty, is_some, length, select,
  sum_by, take, drop, map,
}
use bsv_wallet_cli.Prelude.Text.{Text, codes, text_eq, u32_mod}
use bsv_wallet_cli.SpendGate.Hold.{
  CreatorReading, GateOptions, HeldCoin, hold_reason, word_label, frozen_reason,
}
use bsv_wallet_cli.SpendGate.Store.{Candidate, print_coin}

abbrev pub batch_size : ℕ
batch_size = 32

abbrev pub offer_cap : ℕ
offer_cap = 16384

pub record Capped : Type 0 where
  pub coins : ℕ
  pub satoshis : ℕ
  pub cap : ℕ

pub record Assessment : Type 0 where
  pub offered : List (ℕ × ℕ)
  pub held : List HeldCoin
  pub unread : List ℕ
  pub capped : Option Capped
  pub headers_retried : Bool

abbrev pub no_assessment : Assessment
no_assessment = record {
  offered = [];
  held = [];
  unread = [];
  capped = none;
  headers_retried = false;
}

abbrev pub offered_satoshis : Assessment → ℕ
offered_satoshis a = sum_by (λ (o : ℕ × ℕ). o.1) a.offered

abbrev pub offer : Assessment → List ℕ
offer a = map (λ (o : ℕ × ℕ). o.0) a.offered

-- A creator to read: its transaction id and the stored proof.
abbrev pub Creator : Type 0
Creator = Text × Option Text

abbrev pub Readings : Type 0
Readings = List (Text × CreatorReading)

unfoldable pub reading_of : Text → Readings → Option CreatorReading
reading_of txid [] = none
reading_of txid ((t, r) ∷ rs) =
    let rest = reading_of txid rs in if text_eq t txid then some r else rest

abbrev pub contains : Text → Readings → Bool
contains txid rs = is_some (reading_of txid rs)

add_creator : List Creator → Candidate → List Creator
add_creator cs c = if any (λ (t, p). text_eq t c.txid) cs then cs else cs ++ (c.txid, c.proof) ∷ []

add_creators : List Creator → List Candidate → List Creator
unfolding add_creator
add_creators cs [] = cs
add_creators cs (c ∷ rest) = add_creators (add_creator cs c) rest

unfoldable pub by_creator : List Candidate → List Creator
unfolding add_creators
by_creator = add_creators []

-- The variables of the loop, and the calls of `read` made so far.
pub record Reader : Type 0 where
  pub readings : Readings
  pub out : Assessment
  pub next : ℕ
  pub calls : ℕ

pub held_coin : Candidate → Text → Text → Bool → HeldCoin
held_coin c word reason headers_fault = record {
  outpoint = print_coin c.txid c.vout;
  satoshis = c.satoshis;
  word = word;
  origin = c.origin;
  age_minutes = c.age_minutes;
  reason = reason;
  headers_fault = headers_fault;
  output_id = c.output_id;
}

push_unread : Candidate → Assessment → Assessment
push_unread c a = record a { unread = a.unread ++ c.output_id ∷ [] }

push_offered : Candidate → Assessment → Assessment
push_offered c a = record a { offered = a.offered ++ (c.output_id, c.satoshis) ∷ [] }

push_held : HeldCoin → Assessment → Assessment
push_held h a = record a { held = a.held ++ h ∷ [] }

-- What the reading says of the coin, entered in the assessment.
place : Bool → Candidate → CreatorReading → Option Text → Assessment → Assessment
unfolding push_unread push_offered push_held held_coin
place covered c r none a = if covered then push_unread c a else push_offered c a
place covered c r (some reason) a =
    push_held (held_coin c (word_label r.word) reason r.headers_fault) a

judge_coin : GateOptions → Bool → Candidate → Option CreatorReading → Assessment → Assessment
unfolding place push_unread
judge_coin opts covered c none a = push_unread c a
judge_coin opts covered c (some r) a =
    place covered c r (hold_reason r c.origin c.txid (c.vout % u32_mod) opts) a

abbrev is_faulted : Option CreatorReading → Bool
is_faulted none = false
is_faulted (some r) = r.headers_fault

abbrev covers : Option ℕ → Assessment → Bool
covers none a = false
covers (some need) a = leb need (offered_satoshis a)

abbrev batch_end : Option ℕ → ℕ → ℕ → ℕ
batch_end none next len = len
batch_end (some need) next len = min (next + batch_size) len

module _ {E : Type 0} (read : ℕ → List Creator → Result E Readings) where
  -- The creators on which the header service did not answer are read once more.
  reread : List Creator → Reader → Result E Reader
  reread [] rd = ok rd
  reread (f ∷ fs) rd = do
    again ← read rd.calls (f ∷ fs)
    ok (record rd {
      readings = again ++ rd.readings;
      out = record rd.out { headers_retried = true };
      calls = suc rd.calls;
    })

  retry_faulted : Bool → List Creator → Reader → Result E Reader
  unfolding reread
  retry_faulted retry batch rd =
      if retry && not rd.out.headers_retried
      then reread (select (λ (t, p). is_faulted (reading_of t rd.readings)) batch) rd
      else ok rd

  unread_batch : List Creator → Option ℕ → Reader → List Creator
  unread_batch creators need rd =
      select (λ (t, p). not (contains t rd.readings))
        (take (batch_end need rd.next (length creators) - rd.next) (drop rd.next creators))

  read_batch : List Creator → Option ℕ → Bool → Reader → Result E Reader
  unfolding retry_faulted unread_batch
  read_batch creators need retry rd = do
    let batch = unread_batch creators need rd
    answers ← read rd.calls batch
    retry_faulted retry batch (record rd {
      readings = answers ++ rd.readings;
      next = batch_end need rd.next (length creators);
      calls = suc rd.calls;
    })

  judge_now : GateOptions → Bool → Candidate → Reader → Reader
  unfolding judge_coin
  judge_now opts covered c rd = record rd {
    out = judge_coin opts covered c (reading_of c.txid rd.readings) rd.out;
  }

  -- One round of the loop.
  visit : GateOptions → List Creator → Option ℕ → Bool → Candidate → Reader → Result E Reader
  unfolding read_batch judge_now push_held push_unread held_coin
  visit opts creators need retry c rd =
      let covered = covers need rd.out in
      if c.frozen
      then ok
          (record rd { out = push_held (held_coin c (codes "frozen") frozen_reason false) rd.out })
      else if contains c.txid rd.readings
      then ok (judge_now opts covered c rd)
      else if covered
      then ok (record rd { out = push_unread c rd.out })
      else do rd' ← read_batch creators need retry rd; ok (judge_now opts covered c rd')

  visit_all :
      GateOptions → List Creator → Option ℕ → Bool → List Candidate → Reader → Result E Reader
  visit_all opts creators need retry [] rd = ok rd
  visit_all opts creators need retry (c ∷ cs) rd = do
    rd' ← visit opts creators need retry c rd
    visit_all opts creators need retry cs rd'

-- `cap_offer`: the positions of the offered coins by falling value, ties by position.
indexed : ℕ → List (ℕ × ℕ) → List (ℕ × ℕ)
indexed i [] = []
indexed i (o ∷ os) = (i, o.1) ∷ indexed (suc i) os

worth_more : ℕ × ℕ → ℕ × ℕ → Bool
worth_more (i, v) (j, w) = if v == w then ltb i j else ltb w v

insert_by_value : ℕ × ℕ → List (ℕ × ℕ) → List (ℕ × ℕ)
unfolding worth_more
insert_by_value p [] = p ∷ []
insert_by_value p (q ∷ qs) =
    let rest = insert_by_value p qs in if worth_more q p then q ∷ rest else p ∷ q ∷ qs

by_value : List (ℕ × ℕ) → List (ℕ × ℕ)
unfolding insert_by_value
by_value [] = []
by_value (p ∷ ps) = insert_by_value p (by_value ps)

is_kept : List (ℕ × ℕ) → ℕ → Bool
is_kept kept i = any (λ (p : ℕ × ℕ). p.0 == i) kept

-- The coins from position `i` on, kept in the offer or moved out of it.
part : List (ℕ × ℕ) → ℕ → List (ℕ × ℕ) → Assessment → Capped → Assessment
unfolding is_kept
part kept i [] a capped = record a { capped = some capped }
part kept i (o ∷ os) a capped =
    part kept (suc i) os
      (if is_kept kept i
        then record a { offered = a.offered ++ o ∷ [] }
        else record a { unread = a.unread ++ o.0 ∷ [] })
      (if is_kept kept i
        then capped
        else record capped { coins = capped.coins + 1; satoshis = capped.satoshis + o.1 })

unfoldable pub cap_offer : Assessment → ℕ → Assessment
unfolding part by_value indexed
cap_offer a cap =
    if leb (length a.offered) cap
    then a
    else part (take cap (by_value (indexed 0 a.offered))) 0 a.offered (record a { offered = [] })
        (record { coins = 0; satoshis = 0; cap = cap })

abbrev first_reader : ℕ → Reader
first_reader calls = record { readings = []; out = no_assessment; next = 0; calls = calls }

-- The assessment of the candidates, and the calls of `read` made by then.
pub assess_inner :
    {E : Type 0}
    → (ℕ → List Creator → Result E Readings)
    → GateOptions
    → Option ℕ
    → Bool
    → List Candidate
    → ℕ
    → Result E (Assessment × ℕ)
unfolding visit_all cap_offer
assess_inner read opts need retry all calls = do
  rd ← visit_all read opts (by_creator all) need retry all (first_reader calls)
  ok (cap_offer rd.out offer_cap, rd.calls)
