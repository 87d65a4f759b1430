-- ===== src/SpendGate/Gated.antt =====
-- `createAction` through the gate: `create_action`, `run_gated`, `run_offered`, `refusal`,
-- `strip_rule_label` and `Refusal::code` of src/spend_gate.rs. The toolbox's door is a parameter:
-- its `n`th call answers with the action or with an error's text. The store is read at six moments
-- between which other calls may write it. What the door was asked, in order, is part of the result.
pub mod Safety
pub mod Labels
pub mod Refusals
use bsv_wallet_cli.Prelude.{
  ℕ, suc, ◌+◌, ◌%◌, ◌-◌, ◌^◌, min, Option, none, some, Bool, true, false, ◌&&◌, ◌||◌, not, List, [],
  ◌∷◌, ◌++◌, Result, ok, err, ◌==◌, ltb, leb, if◌then◌else◌, is_some, is_empty, any, all, sum_by,
  select,
}
use bsv_wallet_cli.Prelude.Text.{
  Text, codes, text_eq, trim, to_ascii_lowercase, strip_prefix, contains_text,
}
use bsv_wallet_cli.SpendGate.Word.{Coin, is_on, named}
use bsv_wallet_cli.SpendGate.Hold.{GateOptions, HeldCoin, service_error}
use bsv_wallet_cli.SpendGate.Store.{Store, candidates, locked}
use bsv_wallet_cli.SpendGate.Assess.{
  Assessment, Capped, Creator, Readings, offered_satoshis, offer, assess_inner,
}
use bsv_wallet_cli.SpendGate.Named.{ScopeError, assess_named, check_scope}

pub data Moment : Type 0 where
  at_scope at_named at_named_again at_first at_full at_refusal : Moment

-- What the gate reads of `CreateActionArgs`; the rest goes through as it is.
pub record Args : Type 0 where
  pub inputs : List Coin
  pub outputs : List ℕ
  pub labels : Option (List Text)
  pub rest : Text

pub record Refusal : Type 0 where
  pub toolbox : Text
  pub offered_satoshis : ℕ
  pub held : List HeldCoin
  pub capped : Option Capped
  pub headers_fault : Option Text

pub data GateError (E : Type 0) : Type 0 where
  refused : Refusal → GateError E
  wallet : Text → GateError E
  gate : E → GateError E
  scope : ScopeError → GateError E

-- The answer, and the door's calls: the arguments and the offer of each.
pub record Outcome (E A : Type 0) : Type 0 where
  pub result : Result (GateError E) A
  pub asked : List (Args × List ℕ)

unfoldable pub named_input_refused : Text
named_input_refused = codes "an input the spend guard does not offer"

unfoldable pub received_pending_label : Text
received_pending_label = codes "spend-gate:received-pending"

abbrev pub fee_margin : ℕ
fee_margin = 10000

abbrev pub u64_max : ℕ
u64_max = 18446744073709551615

-- `sum::<u64>()`, which wraps in a release build.
abbrev pub outputs_sum : Args → ℕ
outputs_sum args = sum_by (λ n. n) args.outputs % suc u64_max

-- `u64::saturating_add`.
abbrev pub saturating_add : ℕ → ℕ → ℕ
saturating_add a b = min (a + b) u64_max

pub data Code : Type 0 where
  headers_unavailable input_not_offered insufficient_funds : Code

unfoldable pub is_named_input : Refusal → Bool
is_named_input r = text_eq r.toolbox named_input_refused

unfoldable pub code : Refusal → Code
code r =
    if is_some r.headers_fault
    then headers_unavailable
    else if is_named_input r
    then input_not_offered
    else insufficient_funds

unfoldable pub is_insufficient : Text → Bool
is_insufficient e = contains_text (codes "insufficient funds") (to_ascii_lowercase e)

unfoldable pub is_unspendable : Text → Bool
is_unspendable e = contains_text (codes "Unspendable coin:") e

unfoldable pub is_rule_label : Text → Bool
is_rule_label l = text_eq (to_ascii_lowercase (trim l)) received_pending_label

unfoldable pub strip_rule_label : Option (List Text) → Option (List Text)
unfolding is_rule_label
strip_rule_label none = none
strip_rule_label (some labels) = some (select (λ l. not (is_rule_label l)) labels)

abbrev pub or_nil : Option (List Text) → List Text
or_nil none = []
or_nil (some ls) = ls

-- The arguments that go to the door: the caller's own copies of the label stripped, the word's
-- label added.
unfoldable pub with_rule_label : GateOptions → Args → Args
unfolding strip_rule_label
with_rule_label opts args = record args {
  labels =
      if is_on opts.allow_pending
      then some (or_nil (strip_rule_label args.labels) ++ received_pending_label ∷ [])
      else strip_rule_label args.labels;
}

first_service_error : List HeldCoin → Option Text
first_service_error [] = none
first_service_error (c ∷ cs) =
    let rest = first_service_error cs in elim (service_error c) [ some e ↦ some e | none ↦ rest ]

abbrev pub on_fault : List HeldCoin → ℕ
on_fault held =
    sum_by (λ (c : HeldCoin). c.satoshis) (select (λ (c : HeldCoin). c.headers_fault) held)

abbrev text_or : Text → Option Text → Text
text_or default none = default
text_or default (some t) = t

unfoldable pub refusal : Store → Assessment → Text → ℕ → Refusal
unfolding first_service_error
refusal st a e outputs =
    let held = a.held ++ locked st in
    record {
      toolbox = text_or e (strip_prefix (codes "wallet error: ") e);
      offered_satoshis = offered_satoshis a;
      held = held;
      capped = a.capped;
      headers_fault =
          if ltb 0 (on_fault held)
            && leb outputs (saturating_add (offered_satoshis a) (on_fault held))
          then first_service_error held
          else none;
    }

-- A caller's named coins are held: the door is not asked.
named_refusal : List HeldCoin → Refusal
unfolding first_service_error
named_refusal held = record {
  toolbox = named_input_refused;
  offered_satoshis = 0;
  held = held;
  capped = none;
  headers_fault =
      if all (λ (c : HeldCoin). c.headers_fault) held then first_service_error held else none;
}

abbrev stopped : {E A : Type 0} → GateError E → Outcome E A
stopped e = record { result = err e; asked = [] }

module _ {E A : Type 0} (read : ℕ → List Creator → Result E Readings)
    (door : ℕ → Args → List ℕ → Result Text A) (store : Moment → Store) (opts : GateOptions) where
  abbrev after : Args → Assessment → Result (GateError E) A → Outcome E A
  after args first r = record { result = r; asked = (args, offer first) ∷ [] }

  abbrev after_both : Args → Assessment → Assessment → Result (GateError E) A → Outcome E A
  after_both args first full r = record {
    result = r;
    asked = (args, offer first) ∷ (args, offer full) ∷ [];
  }

  -- The door's second answer, on every coin read.
  second : Args → ℕ → Assessment → Assessment → Result Text A → Outcome E A
  second args outputs first full (ok a) = after_both args first full (ok a)
  second args outputs first full (err e) = after_both args first full (
      err (
        if is_insufficient e
        then refused (refusal (store at_refusal) full e outputs)
        else wallet e))

  read_all : Args → ℕ → Assessment → Result E (Assessment × ℕ) → Outcome E A
  unfolding second
  read_all args outputs first (err x) = after args first (err (gate x))
  read_all args outputs first (ok (full, calls)) =
      second args outputs first full (door 1 args (offer full))

  try_all : Args → ℕ → Assessment → ℕ → Outcome E A
  unfolding read_all
  try_all args outputs first calls =
      read_all args outputs first
        (assess_inner read opts none (not first.headers_retried) (candidates (store at_full)) calls)

  -- The door's first answer, on the lazy read.
  first_answer : Args → ℕ → Assessment → ℕ → Result Text A → Outcome E A
  unfolding try_all
  first_answer args outputs first calls (ok a) = after args first (ok a)
  first_answer args outputs first calls (err e) =
      let lazy = not (is_empty first.unread) in
      if lazy && is_unspendable e
      then try_all args outputs first calls
      else if not (is_insufficient e)
      then after args first (err (wallet e))
      else if not lazy
      then after args first (err (refused (refusal (store at_refusal) first e outputs)))
      else try_all args outputs first calls

  offer_first : Args → ℕ → Result E (Assessment × ℕ) → Outcome E A
  unfolding first_answer
  offer_first args outputs (err x) = stopped (gate x)
  offer_first args outputs (ok (first, calls)) =
      first_answer args outputs first calls (door 0 args (offer first))

  run_gated : Args → ℕ → Outcome E A
  unfolding offer_first
  run_gated args calls =
      let outputs = outputs_sum args in
      offer_first args outputs (
        assess_inner read opts (some (saturating_add outputs fee_margin)) true
          (candidates (store at_first)) calls)

  -- The coins named as inputs, read once more where one is held on the header service's fault.
  assess_named_again : List Coin → Result E (List HeldCoin × ℕ) → Result E (List HeldCoin × ℕ)
  assess_named_again coins (err x) = err x
  assess_named_again coins (ok (held, calls)) =
      if any (λ (c : HeldCoin). c.headers_fault) held
      then assess_named read (store at_named_again) opts coins none calls
      else ok (held, calls)

  after_named : Args → Result E (List HeldCoin × ℕ) → Outcome E A
  unfolding run_gated
  after_named args (err x) = stopped (gate x)
  after_named args (ok ([], calls)) = run_gated (with_rule_label opts args) calls
  after_named args (ok (h ∷ hs, calls)) = stopped (refused (named_refusal (h ∷ hs)))

  judge_inputs : Args → List Coin → Outcome E A
  unfolding after_named assess_named_again
  judge_inputs args [] = run_gated (with_rule_label opts args) 0
  judge_inputs args (c ∷ cs) =
      after_named args
        (assess_named_again (c ∷ cs) (assess_named read (store at_named) opts (c ∷ cs) none 0))

  after_scope : Args → Option ScopeError → Outcome E A
  unfolding judge_inputs
  after_scope args (some e) = stopped (scope e)
  after_scope args none = judge_inputs args args.inputs

  pub create_action : Args → Outcome E A
  unfolding after_scope
  create_action args = after_scope args (check_scope (store at_scope) (named opts.allow_pending))
