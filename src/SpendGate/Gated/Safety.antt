-- ===== src/SpendGate/Gated/Safety.antt =====
-- What the door may be asked to spend.
use bsv_wallet_cli.Prelude.{
  ℕ, Option, none, some, true, ◌&&◌, not, List, [], ◌∷◌, Result, ok, err, is_empty, All, All-map,
  Bool-cases, inl, inr, ◌⊎◌, OnOk, map,
}
use bsv_wallet_cli.Prelude.Text.{Text}
use bsv_wallet_cli.SpendGate.Word.{Coin, named}
use bsv_wallet_cli.SpendGate.Hold.{GateOptions, HeldCoin}
use bsv_wallet_cli.SpendGate.Store.{Store, Candidate, candidates}
use bsv_wallet_cli.SpendGate.Store.Spendable.{IsSpendable, candidates-IsSpendable}
use bsv_wallet_cli.SpendGate.Assess.{Assessment, Creator, Readings, offer, assess_inner}
use bsv_wallet_cli.SpendGate.Assess.Offered.{Backed, assess_inner-offers}
use bsv_wallet_cli.SpendGate.Named.{ScopeError, assess_named, check_scope}
use bsv_wallet_cli.SpendGate.Gated.{
  outputs_sum, Args, Outcome, Moment, at_scope, at_named, at_first, at_full, second, read_all,
  try_all, first_answer, offer_first, run_gated, assess_named_again, after_named, judge_inputs,
  after_scope, create_action, with_rule_label, is_insufficient, is_unspendable, saturating_add,
  fee_margin,
}

module _ {E A : Type 0} (read : ℕ → List Creator → Result E Readings)
    (door : ℕ → Args → List ℕ → Result Text A) (store : Moment → Store) (opts : GateOptions) where
  -- A coin of the store at one of the two moments at which the candidates are read.
  abbrev pub InStore : Candidate → Type 0
  InStore c = IsSpendable (store at_first) c ⊎ IsSpendable (store at_full) c

  -- An offered output id: the coin behind it is one of the store's, not frozen, and offered by the
  -- rules on an answer of the header service.
  abbrev pub Supported : ℕ → Type 0
  Supported id = (satoshis : ℕ) × Backed read opts InStore (id, satoshis)

  abbrev pub IsSafe : Outcome E A → Type 0
  IsSafe o = All (λ (call : Args × List ℕ). All Supported call.1) o.asked

  Supported-offer :
      (os : List (ℕ × ℕ))
      → All (Backed read opts InStore) os
      → All Supported (map (λ (o : ℕ × ℕ). o.0) os)
  Supported-offer [] h = tt
  Supported-offer ((id, sats) ∷ os) h = ((sats, h.0), Supported-offer os h.1)

  abbrev IsBacked : Assessment → Type 0
  IsBacked a = All (Backed read opts InStore) a.offered

  All-InStore :
      (st : Store) → ((c : Candidate) → IsSpendable st c → InStore c) → All InStore (candidates st)
  All-InStore st up =
      All-map (IsSpendable st) InStore up (candidates st) (candidates-IsSpendable st)

  second-IsSafe :
      (args : Args) (outputs : ℕ) (first full : Assessment) (r : Result Text A)
      → IsBacked first
      → IsBacked full
      → IsSafe (second read door store opts args outputs first full r)
  unfolding second
  second-IsSafe args outputs first full (ok a) h k =
      (Supported-offer first.offered h, (Supported-offer full.offered k, tt))
  second-IsSafe args outputs first full (err e) h k =
      (Supported-offer first.offered h, (Supported-offer full.offered k, tt))

  read_all-IsSafe :
      (args : Args) (outputs : ℕ) (first : Assessment) (r : Result E (Assessment × ℕ))
      → IsBacked first
      → OnOk (λ (p : Assessment × ℕ). IsBacked p.0) r
      → IsSafe (read_all read door store opts args outputs first r)
  unfolding read_all
  read_all-IsSafe args outputs first (err x) h k = (Supported-offer first.offered h, tt)
  read_all-IsSafe args outputs first (ok (full, calls)) h k =
      second-IsSafe args outputs first full (door 1 args (offer full)) h k

  try_all-IsSafe :
      (args : Args) (outputs : ℕ) (first : Assessment) (calls : ℕ)
      → IsBacked first
      → IsSafe (try_all read door store opts args outputs first calls)
  unfolding try_all
  try_all-IsSafe args outputs first calls h =
      read_all-IsSafe args outputs first
        (assess_inner read opts none (not first.headers_retried) (candidates (store at_full)) calls)
        h
        (assess_inner-offers read opts InStore none (not first.headers_retried)
          (candidates (store at_full)) calls (All-InStore (store at_full) (λ c s. inr s)))

  first_answer-IsSafe :
      (args : Args) (outputs : ℕ) (first : Assessment) (calls : ℕ) (r : Result Text A)
      → IsBacked first
      → IsSafe (first_answer read door store opts args outputs first calls r)
  unfolding first_answer
  first_answer-IsSafe args outputs first calls (ok a) h = (Supported-offer first.offered h, tt)
  first_answer-IsSafe args outputs first calls (err e) h =
      let lazy = not (is_empty first.unread) in
      elim (Bool-cases (lazy && is_unspendable e)) [
        | inl y ↦ simp y (try_all-IsSafe args outputs first calls h)
        | inr n ↦ simp n (elim (Bool-cases (not (is_insufficient e))) [
          | inl y ↦ simp y (Supported-offer first.offered h, tt)
          | inr m ↦ simp m (elim (Bool-cases (not lazy)) [
            | inl y ↦ simp y (Supported-offer first.offered h, tt)
            | inr k ↦ simp k (try_all-IsSafe args outputs first calls h)
          ])
        ])
      ]

  offer_first-IsSafe :
      (args : Args) (outputs : ℕ) (r : Result E (Assessment × ℕ))
      → OnOk (λ (p : Assessment × ℕ). IsBacked p.0) r
      → IsSafe (offer_first read door store opts args outputs r)
  unfolding offer_first
  offer_first-IsSafe args outputs (err x) h = tt
  offer_first-IsSafe args outputs (ok (first, calls)) h =
      first_answer-IsSafe args outputs first calls (door 0 args (offer first)) h

  run_gated-IsSafe : (args : Args) (calls : ℕ) → IsSafe (run_gated read door store opts args calls)
  unfolding run_gated
  run_gated-IsSafe args calls =
      let need = some (saturating_add (outputs_sum args) fee_margin) in
      offer_first-IsSafe args (outputs_sum args)
        (assess_inner read opts need true (candidates (store at_first)) calls)
        (assess_inner-offers read opts InStore need true (candidates (store at_first)) calls
          (All-InStore (store at_first) (λ c s. inl s)))

  after_named-IsSafe :
      (args : Args) (r : Result E (List HeldCoin × ℕ))
      → IsSafe (after_named read door store opts args r)
  unfolding after_named
  after_named-IsSafe args (err x) = tt
  after_named-IsSafe args (ok ([], calls)) = run_gated-IsSafe (with_rule_label opts args) calls
  after_named-IsSafe args (ok (h ∷ hs, calls)) = tt

  judge_inputs-IsSafe :
      (args : Args) (coins : List Coin) → IsSafe (judge_inputs read door store opts args coins)
  unfolding judge_inputs
  judge_inputs-IsSafe args [] = run_gated-IsSafe (with_rule_label opts args) 0
  judge_inputs-IsSafe args (c ∷ cs) = after_named-IsSafe args (
      assess_named_again read door store opts (c ∷ cs)
        (assess_named read (store at_named) opts (c ∷ cs) none 0))

  after_scope-IsSafe :
      (args : Args) (e : Option ScopeError) → IsSafe (after_scope read door store opts args e)
  unfolding after_scope
  after_scope-IsSafe args (some e) = tt
  after_scope-IsSafe args none = judge_inputs-IsSafe args args.inputs

  -- Whatever the toolbox, the header service and other writers of the store answer, each coin in
  -- each offer that the door is given is an unspent change coin of the default basket of a completed
  -- or unproven transaction, not frozen, that the rules offer on an answer of the header service.
  pub create_action-IsSafe : (args : Args) → IsSafe (create_action read door store opts args)
  unfolding create_action
  create_action-IsSafe args =
      after_scope-IsSafe args (check_scope (store at_scope) (named opts.allow_pending))
