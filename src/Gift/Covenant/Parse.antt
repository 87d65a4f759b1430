-- ===== src/Gift/Covenant/Parse.antt =====
-- Parsing a locking script that the code built.
use bsv_wallet_cli.Prelude.{
  ℕ, ◌-◌, ◌^◌, ◌<◌, ◌≡◌, refl, sym, true, ◌∷◌, ◌++◌, ok, ◌>>=◌, append_assoc, length, length-append,
  drop, arith,
}
use bsv_wallet_cli.Prelude.Text.{strip_prefix-append, text_eq_refl}
use bsv_wallet_cli.Gift.Covenant.{
  Bytes, Template, CovenantParams, push_num, build_locking_script, starts_with, ends_with,
  parse_params, parse_locking_script, pubkey_out_of_range,
}
use bsv_wallet_cli.Gift.Covenant.Pushes.{drop-append, get_slice-append, read_push_num-push_num}

starts_with-append : (p s : Bytes) → starts_with p (p ++ s) ≡ true
unfolding starts_with
starts_with-append p s = rw (strip_prefix-append p s) refl

drop_prefix : (k : ℕ) (p s : Bytes) → k ≡ length p → drop k (p ++ s) ≡ s
drop_prefix k p s e = rw e (drop-append p s)

ends_with-append : (p s : Bytes) → ends_with s (p ++ s) ≡ true
unfolding ends_with
ends_with-append p s =
    rw (drop_prefix (length (p ++ s) - length s) p s (omega (arith, length-append p s)))
      (ground (arith, length-append p s, text_eq_refl s))

-- What `build_locking_script` puts between the key and the template's end.
abbrev nums : Template → ℕ → ℕ → Bytes
nums t lock_until amount = push_num lock_until ++ (push_num amount ++ t.suffix)

params_of : Bytes → ℕ → ℕ → CovenantParams
params_of recipient lock_until amount = record {
  recipient = recipient;
  lock_until = lock_until;
  amount = amount;
}

parse_params-build :
    (t : Template) (recipient : Bytes) (lock_until amount : ℕ)
    → length recipient ≡ 33
    → lock_until < 2 ^ 63
    → amount < 2 ^ 63
    → parse_params t (recipient ++ nums t lock_until amount)
      ≡ ok (record { recipient = recipient; lock_until = lock_until; amount = amount })
unfolding parse_params
parse_params-build t recipient lock_until amount r l a = rw (sym r) (
    rw (get_slice-append pubkey_out_of_range recipient (nums t lock_until amount)) (
      rw (read_push_num-push_num lock_until (push_num amount ++ t.suffix) l)
        (rw (read_push_num-push_num amount t.suffix a) (rw (text_eq_refl t.suffix) refl))))

-- The parts before the template's end, as one list.
body_of : Template → Bytes → ℕ → ℕ → Bytes
body_of t recipient lock_until amount =
    t.prefix ++ 0x21 ∷ (recipient ++ (push_num lock_until ++ push_num amount))

body_of-suffix :
    (t : Template) (recipient : Bytes) (lock_until amount : ℕ)
    → t.prefix ++ 0x21 ∷ (recipient ++ nums t lock_until amount)
      ≡ body_of t recipient lock_until amount ++ t.suffix
unfolding body_of
body_of-suffix t recipient lock_until amount = simp append_assoc refl

parse-build :
    (t : Template) (recipient : Bytes) (lock_until amount : ℕ)
    → length recipient ≡ 33
    → lock_until < 2 ^ 63
    → amount < 2 ^ 63
    → parse_locking_script t (t.prefix ++ 0x21 ∷ (recipient ++ nums t lock_until amount))
      ≡ ok (record { recipient = recipient; lock_until = lock_until; amount = amount })
unfolding parse_locking_script
parse-build t recipient lock_until amount r l a =
    let s : Bytes = 0x21 ∷ (recipient ++ nums t lock_until amount) in
    let e : ends_with t.suffix (t.prefix ++ s) ≡ true =
      rw (body_of-suffix t recipient lock_until amount) (ends_with-append _ t.suffix) in
    simp (starts_with-append t.prefix s) (
      simp e (rw (drop-append t.prefix s) (parse_params-build t recipient lock_until amount r l a)))

-- A locking script that the code builds for a 33-byte key, with a lock time and an amount below
-- 2^63, is accepted by the parser, which gives back the key, the lock time and the amount.
pub parse_locking_script-build_locking_script :
    (t : Template) (recipient : Bytes) (lock_until amount : ℕ)
    → length recipient ≡ 33
    → lock_until < 2 ^ 63
    → amount < 2 ^ 63
    → (build_locking_script t recipient lock_until amount >>= (λ s. parse_locking_script t s))
      ≡ ok (record { recipient = recipient; lock_until = lock_until; amount = amount })
unfolding build_locking_script
parse_locking_script-build_locking_script t recipient lock_until amount r l a =
    rw r (parse-build t recipient lock_until amount r l a)
