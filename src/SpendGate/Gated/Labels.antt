-- ===== src/SpendGate/Gated/Labels.antt =====
-- The rule label among the action's labels.
use bsv_wallet_cli.Prelude.{
  ◌≡◌, refl, Option, none, some, Bool, true, not, List, [], ◌∷◌, ◌++◌, append-nil, if◌then◌else◌,
  select, Bool-cases, inl, inr,
}
use bsv_wallet_cli.Prelude.Text.{
  Text, text_eq, to_ascii_lowercase, trim_start, trim_end, is_whitespace, lower,
}
use bsv_wallet_cli.SpendGate.Word.{is_on}
use bsv_wallet_cli.SpendGate.Hold.{GateOptions}
use bsv_wallet_cli.SpendGate.Gated.{
  Args, or_nil, is_rule_label, received_pending_label, strip_rule_label, with_rule_label,
}

abbrev pub others : List Text → List Text
others ls = select (λ l. not (is_rule_label l)) ls

select-append :
    (p : Text → Bool) (xs ys : List Text) → select p (xs ++ ys) ≡ select p xs ++ select p ys
select-append p [] ys = refl
select-append p (x ∷ xs) ys = elim (Bool-cases (p x)) [
  | inl y ↦ simp (y, select-append p xs ys)
  | inr n ↦ simp (n, select-append p xs ys)
]

others-others : (ls : List Text) → others (others ls) ≡ others ls
others-others [] = refl
others-others (l ∷ ls) = elim (Bool-cases (is_rule_label l)) [
  | inl y ↦ simp (y, others-others ls)
  | inr n ↦ simp (n, others-others ls)
]

rules-others : (ls : List Text) → select is_rule_label (others ls) ≡ []
rules-others [] = refl
rules-others (l ∷ ls) = elim (Bool-cases (is_rule_label l)) [
  | inl y ↦ simp (y, rules-others ls)
  | inr n ↦ simp (n, rules-others ls)
]

label_is_rule : is_rule_label received_pending_label ≡ true
unfolding is_rule_label text_eq trim_start trim_end to_ascii_lowercase is_whitespace lower
    received_pending_label
label_is_rule = refl

or_nil-strip : (ls : Option (List Text)) → or_nil (strip_rule_label ls) ≡ others (or_nil ls)
unfolding strip_rule_label
or_nil-strip none = refl
or_nil-strip (some ls) = refl

-- The action's labels hold the rule's label once if the word is on and never if it is off, in any
-- case or padding, and the caller's other labels as they were.
pub with_rule_label_lem :
    (opts : GateOptions) (args : Args)
    → let labels = or_nil (with_rule_label opts args).labels in
      (select is_rule_label labels
        ≡ (if is_on opts.allow_pending then received_pending_label ∷ [] else []))
      × (others labels ≡ others (or_nil args.labels))
unfolding with_rule_label
with_rule_label_lem opts args = elim (Bool-cases (is_on opts.allow_pending)) [
  | inl y ↦
      simp (y, or_nil-strip, select-append, rules-others, others-others, label_is_rule, append-nil)
        (refl, refl)
  | inr n ↦ simp (n, or_nil-strip, rules-others, others-others) (refl, refl)
]
