-- ===== src/BroadcastVerify/Indexes/Absence.antt =====
-- When the chain indexes' one answer is absence.
use bsv_wallet_cli.Prelude.{
  ℕ, zero, suc, ◌+◌, ◌%◌, ◌≤◌, ◌≡◌, refl, ◌∙◌, some, Bool, true, false, ◌&&◌, ◌||◌, not, List, [],
  ◌∷◌, ◌++◌, arith, ◌==◌, ltb, length, take, drop, any, all,
}
use bsv_wallet_cli.BroadcastVerify.Probe.{
  seen, mined, Presence, held, fatal, absent, unknown, present, StatusSource,
}
use bsv_wallet_cli.BroadcastVerify.Indexes.{
  ChainIndexReply, Tally, index_absent, votes, ask_one, ask_rest, ask, rotate, no_tally, counted,
  indexes_of, ask_chain_indexes,
}

-- The index does not stand against absence: one that votes says so, and BananaBlocks has no block.
abbrev pub is_clean : Bool → Presence → Bool
is_clean true absent = true
is_clean true _ = false
is_clean false (present mined) = false
is_clean false _ = true

module _ (look : StatusSource → Presence) where
  abbrev pub clean : StatusSource → Bool
  clean src = is_clean (votes src) (look src)

  -- What the counts say once the indexes that are left have been asked.
  abbrev decides : Tally → List StatusSource → Bool
  decides t srcs =
      (t.absences == t.voters)
      && not t.could_not_look
      && all clean srcs
      && (ltb 0 t.voters || any votes srcs)

  abbrev pub is_absent : ChainIndexReply → Bool
  is_absent r = elim r.answer [ index_absent ↦ true | _ ↦ false ]

  module _ (src : StatusSource) (srcs : List StatusSource) (t : Tally) (h : t.absences ≤ t.voters)
      (ih : (u : Tally)
        → u.absences ≤ u.voters
        → is_absent (ask look srcs u) ≡ decides u srcs) where
    abbrev Steps : Presence → Type 0
    Steps p = is_absent (ask_rest (ask_one src p (counted src t)) (ask look srcs)) ≡ (
        (t.absences == t.voters)
        && not t.could_not_look
        && (is_clean (votes src) p && all clean srcs)
        && (ltb 0 t.voters || (votes src || any votes srcs)))

    ask_step : (p : Presence) → Steps p
    unfolding ask
    ask_step (present mined) = ground arith
    ask_step (present seen) = ground (arith, ih (record t { known = some src.name }))
    ask_step absent =
        ground (arith, ih t, ih (record t { voters = t.voters + 1; absences = t.absences + 1 }))
    ask_step held =
        ground (arith, ih t, ih (record t { voters = t.voters + 1; could_not_look = true }))
    ask_step fatal =
        ground (arith, ih t, ih (record t { voters = t.voters + 1; could_not_look = true }))
    ask_step unknown =
        ground (arith, ih t, ih (record t { voters = t.voters + 1; could_not_look = true }))

  ask_absent :
      (srcs : List StatusSource) (t : Tally)
      → t.absences ≤ t.voters
      → is_absent (ask look srcs t) ≡ decides t srcs
  unfolding ask
  ask_absent [] t h = ground arith
  ask_absent (src ∷ srcs) t h = ask_step src srcs t h (ask_absent srcs) (look src)

  all-append :
      (p : StatusSource → Bool) (xs ys : List StatusSource)
      → all p (xs ++ ys) ≡ all p xs && all p ys
  all-append p [] ys = refl
  all-append p (x ∷ xs) ys = ground (arith, all-append p xs ys)

  any-append :
      (p : StatusSource → Bool) (xs ys : List StatusSource)
      → any p (xs ++ ys) ≡ any p xs || any p ys
  any-append p [] ys = refl
  any-append p (x ∷ xs) ys = ground (arith, any-append p xs ys)

  all-split :
      (p : StatusSource → Bool) (n : ℕ) (xs : List StatusSource)
      → all p (drop n xs) && all p (take n xs) ≡ all p xs
  all-split p zero xs = ground arith
  all-split p (suc n) [] = refl
  all-split p (suc n) (x ∷ xs) = ground (arith, all-split p n xs)

  any-split :
      (p : StatusSource → Bool) (n : ℕ) (xs : List StatusSource)
      → any p (drop n xs) || any p (take n xs) ≡ any p xs
  any-split p zero xs = ground arith
  any-split p (suc n) [] = refl
  any-split p (suc n) (x ∷ xs) = ground (arith, any-split p n xs)

  all-rotate :
      (p : StatusSource → Bool) (n : ℕ) (xs : List StatusSource) → all p (rotate n xs) ≡ all p xs
  all-rotate p n xs = all-append p (drop n xs) (take n xs) ∙ all-split p n xs

  any-rotate :
      (p : StatusSource → Bool) (n : ℕ) (xs : List StatusSource) → any p (rotate n xs) ≡ any p xs
  any-rotate p n xs = any-append p (drop n xs) (take n xs) ∙ any-split p n xs

  -- From whatever start, the chain indexes' answer is absence exactly when one of them votes and
  -- none stands against it: each that votes says absent, and BananaBlocks has the transaction in
  -- no block.
  pub ask_chain_indexes_absent :
      (rotation : ℕ) (sources : List StatusSource)
      → is_absent (ask_chain_indexes look rotation sources)
        ≡ all clean (indexes_of sources) && any votes (indexes_of sources)
  unfolding ask_chain_indexes
  ask_chain_indexes_absent rotation sources =
      let xs = indexes_of sources in
      let n = rotation % length xs in
      ask_absent (rotate n xs) no_tally (omega arith)
      ∙ rw (all-rotate clean n xs, any-rotate votes n xs)
