-- ===== src/SpendGate/Word/Scope.antt =====
-- What a scoped word reaches, sorted and without doubles as it is kept.
use bsv_wallet_cli.Prelude.{
  ℕ, ◌≡◌, refl, ap, ◌∙◌, Bool, true, ◌||◌, List, [], ◌∷◌, arith, any, Bool-cases, inl, inr,
}
use bsv_wallet_cli.Prelude.Text.{Text, text_eq→eq}
use bsv_wallet_cli.SpendGate.Word.{
  Coin, coin_eq, insert_coin, sort, keep_first, dedup, only_if_some, scoped, reaches,
}

pub coin_eq→eq : (c d : Coin) → coin_eq c d ≡ true → c ≡ d
unfolding coin_eq
coin_eq→eq (t, v) (u, w) h = ground (arith, text_eq→eq t u)

any-insert_coin :
    (p : Coin → Bool) (c : Coin) (cs : List Coin) → any p (insert_coin c cs) ≡ p c || any p cs
unfolding insert_coin
any-insert_coin p c [] = refl
any-insert_coin p c (d ∷ ds) = ground (arith, any-insert_coin p c ds)

any-sort : (p : Coin → Bool) (cs : List Coin) → any p (sort cs) ≡ any p cs
unfolding sort
any-sort p [] = refl
any-sort p (c ∷ cs) = any-insert_coin p c (sort cs) ∙ ap (λ b. p c || b) (any-sort p cs)

any-keep_first :
    (p : Coin → Bool) (c : Coin) (cs : List Coin) → any p (keep_first c cs) ≡ p c || any p cs
unfolding keep_first
any-keep_first p c [] = refl
any-keep_first p c (d ∷ ds) = elim (Bool-cases (coin_eq c d)) [
  | inl e ↦ rw e (ground (arith, ap p (coin_eq→eq c d e)))
  | inr n ↦ rw n
]

any-dedup : (p : Coin → Bool) (cs : List Coin) → any p (dedup cs) ≡ any p cs
unfolding dedup
any-dedup p [] = refl
any-dedup p (c ∷ cs) = any-keep_first p c (dedup cs) ∙ ap (λ b. p c || b) (any-dedup p cs)

reaches-only_if_some :
    (cs : List Coin) (txid : Text) (vout : ℕ)
    → reaches (only_if_some cs) txid vout ≡ any (λ c. coin_eq c (txid, vout)) cs
unfolding only_if_some reaches
reaches-only_if_some [] txid vout = refl
reaches-only_if_some (c ∷ cs) txid vout = refl

-- A scoped word reaches a coin exactly when one of the coins given to it is that coin.
pub reaches-scoped :
    (coins : List Coin) (txid : Text) (vout : ℕ)
    → reaches (scoped coins) txid vout ≡ any (λ c. coin_eq c (txid, vout)) coins
unfolding scoped
reaches-scoped coins txid vout =
    reaches-only_if_some (dedup (sort coins)) txid vout
    ∙ any-dedup (λ c. coin_eq c (txid, vout)) (sort coins)
    ∙ any-sort (λ c. coin_eq c (txid, vout)) coins
