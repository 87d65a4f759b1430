-- ===== src/SpendGate/Gated/Refusals.antt =====
-- How a gated action ends: which calls of the door it made, and what a refusal says.
use bsv_wallet_cli.Prelude.{
  ℕ, ◌+◌, ◌≤◌, ◌<◌, ◌≡◌, refl, sym, Option, none, some, true, ◌&&◌, ◌||◌, not, List, [], ◌∷◌, ◌++◌,
  Result, ok, err, arith, is_some, is_empty, All, Bool-cases, inl, inr, ◌↔◌, subst,
}
use bsv_wallet_cli.Prelude.Text.{Text}
use bsv_wallet_cli.SpendGate.Word.{Coin, named}
use bsv_wallet_cli.SpendGate.Hold.{GateOptions, HeldCoin, service_error}
use bsv_wallet_cli.SpendGate.Store.{Store, candidates, locked}
use bsv_wallet_cli.SpendGate.Assess.{
  Assessment, Creator, Readings, offer, offered_satoshis, assess_inner,
}
use bsv_wallet_cli.SpendGate.Named.{ScopeError, assess_named, check_scope}
use bsv_wallet_cli.SpendGate.Gated.{
  outputs_sum, Args, Outcome, GateError, refused, wallet, Moment, headers_unavailable, at_scope,
  at_named, at_first, at_full, at_refusal, second, read_all, try_all, first_answer, offer_first,
  run_gated, assess_named_again, after_named, judge_inputs, after_scope, create_action,
  with_rule_label, is_insufficient, is_unspendable, saturating_add, fee_margin, refusal, code,
  on_fault, first_service_error, u64_max,
}

module _ {E A : Type 0} (read : ℕ → List Creator → Result E Readings)
    (door : ℕ → Args → List ℕ → Result Text A) (store : Moment → Store) (opts : GateOptions) where
  -- The caller's answer to the door's last one.
  abbrev pub Passes : Result Text A → Result (GateError E) A → Type 0
  Passes (ok a) r = r ≡ ok a
  Passes (err x) r = (e : GateError E) × (r ≡ err e)

  -- The calls of the door that an outcome comes from, all with the arguments `args`.
  pub data Trace (args : Args) (o : Outcome E A) : Type 0 where
    unasked : (e : GateError E) → o.asked ≡ [] → o.result ≡ err e → Trace args o
    once :
        (ids : List ℕ)
        → o.asked ≡ (args, ids) ∷ []
        → Passes (door 0 args ids) o.result
        → Trace args o
    cut_short :
        (ids : List ℕ) (x : Text) (e : GateError E)
        → o.asked ≡ (args, ids) ∷ []
        → door 0 args ids ≡ err x
        → (is_insufficient x || is_unspendable x) ≡ true
        → o.result ≡ err e
        → Trace args o
    twice :
        (ids ids' : List ℕ) (x : Text)
        → o.asked ≡ (args, ids) ∷ (args, ids') ∷ []
        → door 0 args ids ≡ err x
        → (is_insufficient x || is_unspendable x) ≡ true
        → Passes (door 1 args ids') o.result
        → Trace args o

  second-Passes :
      (args : Args) (outputs : ℕ) (first full : Assessment) (r : Result Text A)
      → Passes r (second read door store opts args outputs first full r).result
        × ((second read door store opts args outputs first full r).asked
            ≡ (args, offer first) ∷ (args, offer full) ∷ [])
  unfolding second
  second-Passes args outputs first full (ok a) = (refl, refl)
  second-Passes args outputs first full (err x) = ((_, refl), refl)

  read_all-Trace :
      (args : Args) (outputs : ℕ) (first : Assessment) (x : Text) (r : Result E (Assessment × ℕ))
      → door 0 args (offer first) ≡ err x
      → (is_insufficient x || is_unspendable x) ≡ true
      → Trace args (read_all read door store opts args outputs first r)
  unfolding read_all
  read_all-Trace args outputs first x (err e) d i = cut_short (offer first) x _ refl d i refl
  read_all-Trace args outputs first x (ok (full, calls)) d i =
      let (p, q) = second-Passes args outputs first full (door 1 args (offer full)) in
      twice (offer first) (offer full) x q d i p

  first_answer-Trace :
      (args : Args) (outputs : ℕ) (first : Assessment) (calls : ℕ) (r : Result Text A)
      → door 0 args (offer first) ≡ r
      → Trace args (first_answer read door store opts args outputs first calls r)
  unfolding first_answer try_all
  first_answer-Trace args outputs first calls (ok a) d =
      once (offer first) refl (subst (λ r. Passes r (ok a)) (sym d) refl)
  first_answer-Trace args outputs first calls (err x) d =
      let lazy = not (is_empty first.unread) in
      let full =
        assess_inner read opts none (not first.headers_retried) (candidates (store at_full))
          calls in
      elim (Bool-cases (lazy && is_unspendable x)) [
        | inl y ↦ simp y (read_all-Trace args outputs first x full d (ground arith))
        | inr n ↦ simp n (elim (Bool-cases (not (is_insufficient x))) [
          | inl y ↦ simp y (
              once (offer first) refl
                (subst (λ r. Passes r (err (wallet x))) (sym d) (wallet x, refl)))
          | inr m ↦ simp m (elim (Bool-cases (not lazy)) [
            | inl y ↦
                let e = refused (refusal (store at_refusal) first x outputs) in
                simp y (once (offer first) refl (subst (λ r. Passes r (err e)) (sym d) (e, refl)))
            | inr k ↦ simp k (read_all-Trace args outputs first x full d (ground arith))
          ])
        ])
      ]

  run_gated-Trace :
      (args : Args) (calls : ℕ) → Trace args (run_gated read door store opts args calls)
  unfolding run_gated
  run_gated-Trace args calls = offer_first-Trace (
      assess_inner read opts (some (saturating_add (outputs_sum args) fee_margin)) true
        (candidates (store at_first)) calls)
    where
      offer_first-Trace :
          (r : Result E (Assessment × ℕ))
          → Trace args (offer_first read door store opts args (outputs_sum args) r)
      offer_first-Trace (err x) = unasked _ refl refl
      offer_first-Trace (ok (first, calls')) =
          first_answer-Trace args (outputs_sum args) first calls' (door 0 args (offer first)) refl

  after_named-Trace :
      (args : Args) (r : Result E (List HeldCoin × ℕ))
      → Trace (with_rule_label opts args) (after_named read door store opts args r)
  unfolding after_named
  after_named-Trace args (err x) = unasked _ refl refl
  after_named-Trace args (ok ([], calls)) = run_gated-Trace (with_rule_label opts args) calls
  after_named-Trace args (ok (h ∷ hs, calls)) = unasked _ refl refl

  judge_inputs-Trace :
      (args : Args) (coins : List Coin)
      → Trace (with_rule_label opts args) (judge_inputs read door store opts args coins)
  unfolding judge_inputs
  judge_inputs-Trace args [] = run_gated-Trace (with_rule_label opts args) 0
  judge_inputs-Trace args (c ∷ cs) = after_named-Trace args (
      assess_named_again read door store opts (c ∷ cs)
        (assess_named read (store at_named) opts (c ∷ cs) none 0))

  after_scope-Trace :
      (args : Args) (e : Option ScopeError)
      → Trace (with_rule_label opts args) (after_scope read door store opts args e)
  unfolding after_scope
  after_scope-Trace args (some e) = unasked _ refl refl
  after_scope-Trace args none = judge_inputs-Trace args args.inputs

  -- A gated action asks the door at most twice, with the labelled arguments each time, and the
  -- second time only after an answer that says insufficient funds or an unspendable coin. It
  -- succeeds exactly with the answer of its last call, and fails where that call fails, where none
  -- is made, and where the second reading of the coins fails.
  pub create_action-Trace :
      (args : Args) → Trace (with_rule_label opts args) (create_action read door store opts args)
  unfolding create_action
  create_action-Trace args =
      after_scope-Trace args (check_scope (store at_scope) (named opts.allow_pending))

-- Each coin on the header service's fault gives that service's error.
abbrev pub SpeaksFault : HeldCoin → Type 0
SpeaksFault c = c.headers_fault ≡ true → is_some (service_error c) ≡ true

some_error :
    (held : List HeldCoin)
    → All SpeaksFault held
    → 0 < on_fault held
    → is_some (first_service_error held) ≡ true
unfolding first_service_error
some_error [] s h = absurd (omega arith)
some_error (c ∷ cs) s h = ground (arith, s.0, some_error cs)

-- A refusal says that the headers were unavailable exactly when coins are held on the header
-- service's fault and, with those offered, they reach the sum of the outputs; if the held coins on
-- the fault give the service's error and the sum is a 64-bit number.
pub code-refusal_iff :
    (st : Store) (a : Assessment) (e : Text) (outputs : ℕ)
    → All SpeaksFault (a.held ++ locked st)
    → outputs ≤ u64_max
    → (code (refusal st a e outputs) ≡ headers_unavailable) ↔ (
        (0 < on_fault (a.held ++ locked st))
        × (outputs ≤ offered_satoshis a + on_fault (a.held ++ locked st)))
unfolding code refusal
code-refusal_iff st a e outputs s b =
    (λ h. (ground arith, ground arith), λ h. ground (arith, some_error (a.held ++ locked st)))
