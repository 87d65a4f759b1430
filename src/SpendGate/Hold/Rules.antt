-- ===== src/SpendGate/Hold/Rules.antt =====
-- Which coins the gate offers: `hold_reason` against the charter's rules R1 (b), R1 (d) and the
-- words that are never offered.
use bsv_wallet_cli.Prelude.{
  ℕ, ◌≡◌, refl, Bool, true, false, Option, none, some, ◌↔◌, ◌⊎◌, inl, inr, arith, Bool-cases,
}
use bsv_wallet_cli.Prelude.Text.{Text}
use bsv_wallet_cli.SpendGate.Word.{reaches}
use bsv_wallet_cli.SpendGate.Hold.{
  Origin, made, received_payment, Word, unknown, built, announced, seen, mined, CreatorReading,
  GateOptions, hold_reason, judge, word_reason, depth_text,
}

-- The words that claim nothing about the chain.
abbrev pub is_pending : Word → Bool
is_pending unknown = true
is_pending built = true
is_pending announced = true
is_pending seen = true
is_pending _ = false

-- The rule that an unproven coin of this origin is offered under.
abbrev pub RuleFor : Origin → Text → ℕ → GateOptions → Type 0
RuleFor made txid vout opts = opts.own_change ≡ true
RuleFor received_payment txid vout opts = reaches opts.allow_pending txid vout ≡ true

-- A coin is offered: the headers were read, and the guard offers it, or its creator's word is
-- pending and a rule names it.
abbrev pub Offerable : CreatorReading → Origin → Text → ℕ → GateOptions → Type 0
Offerable r o txid vout opts =
    (r.fault ≡ none)
    × ((r.offered ≡ true) ⊎ ((is_pending r.word ≡ true) × RuleFor o txid vout opts))

rule_of_none :
    (w : Word) (s : Bool) (o : Origin) (txid : Text) (vout : ℕ) (d : Text) (opts : GateOptions)
    → word_reason w s o txid vout d opts ≡ none
    → (is_pending w ≡ true) × RuleFor o txid vout opts
unfolding word_reason
rule_of_none mined s made txid vout d opts h = absurd (ground arith)
rule_of_none _ s made txid vout d opts h = ground arith
rule_of_none mined s received_payment txid vout d opts h = absurd (ground arith)
rule_of_none _ s received_payment txid vout d opts h = ground arith

none_of_rule :
    (w : Word) (s : Bool) (o : Origin) (txid : Text) (vout : ℕ) (d : Text) (opts : GateOptions)
    → is_pending w ≡ true
    → RuleFor o txid vout opts
    → word_reason w s o txid vout d opts ≡ none
unfolding word_reason
none_of_rule mined s made txid vout d opts p h = cc
none_of_rule _ s made txid vout d opts p h = ground arith
none_of_rule mined s received_payment txid vout d opts p h = cc
none_of_rule _ s received_payment txid vout d opts p h = ground arith

judge-none :
    (f : Option Text) (r : CreatorReading) (o : Origin) (txid : Text) (vout : ℕ)
    (opts : GateOptions)
    → judge f r o txid vout opts ≡ none
    → (f ≡ none) × ((r.offered ≡ true) ⊎ ((is_pending r.word ≡ true) × RuleFor o txid vout opts))
unfolding judge
judge-none (some fault) r o txid vout opts h = cc
judge-none none r o txid vout opts h = elim (Bool-cases r.offered) [
  | inl y ↦ (refl, inl y)
  | inr n ↦
      (refl, inr (rule_of_none r.word r.suspect o txid vout (depth_text r opts) opts (simp n at h)))
]

none-judge :
    (f : Option Text) (r : CreatorReading) (o : Origin) (txid : Text) (vout : ℕ)
    (opts : GateOptions)
    → f ≡ none
    → (r.offered ≡ true) ⊎ ((is_pending r.word ≡ true) × RuleFor o txid vout opts)
    → judge f r o txid vout opts ≡ none
unfolding judge
none-judge (some fault) r o txid vout opts f h = cc
none-judge none r o txid vout opts f (inl y) = rw y
none-judge none r o txid vout opts f (inr (p, q)) = elim (Bool-cases r.offered) [
  | inl y ↦ rw y
  | inr n ↦ simp n (none_of_rule r.word r.suspect o txid vout (depth_text r opts) opts p q)
]

-- The gate gives no reason to hold a coin exactly when the headers could be read and the guard
-- offers its creator, or the creator's word is pending and the rule for the coin's origin is named.
pub hold_reason-none_iff :
    (r : CreatorReading) (o : Origin) (txid : Text) (vout : ℕ) (opts : GateOptions)
    → (hold_reason r o txid vout opts ≡ none) ↔ Offerable r o txid vout opts
unfolding hold_reason
hold_reason-none_iff r o txid vout opts =
    (judge-none r.fault r o txid vout opts, λ h. none-judge r.fault r o txid vout opts h.0 h.1)
