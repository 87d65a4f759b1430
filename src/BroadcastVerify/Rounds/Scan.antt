-- ===== src/BroadcastVerify/Rounds/Scan.antt =====
-- What a probe round's result says of the sources' answers in it.
use bsv_wallet_cli.Prelude.{
  ◌≡◌, refl, sym, ◌∙◌, none, Bool, true, false, ◌&&◌, ◌||◌, not, List, [], ◌∷◌, arith, any,
  Bool-cases, inl, inr, ◌⊎◌,
}
use bsv_wallet_cli.BroadcastVerify.Probe.{
  Presence, held, fatal, absent, unknown, present, AbsenceAuthority, StatusSource, is_chain_index,
  is_broadcaster,
}
use bsv_wallet_cli.BroadcastVerify.Indexes.{
  record_vote, ChainIndexAnswer, index_present, index_absent, index_unknown, ChainIndexReply,
}
use bsv_wallet_cli.BroadcastVerify.Indexes.Absence.{is_absent}
use bsv_wallet_cli.BroadcastVerify.Rounds.{
  RoundResult, Scanned, on_chain, scanned, note_presence, with_reply, scan, is_settled,
}

-- The broadcaster's source denies the transaction: it has none, or reports it fatal.
abbrev pub denies : Presence → Bool
denies absent = true
denies fatal = true
denies _ = false

-- A store has the transaction.
abbrev pub vouches : Presence → Bool
vouches held = true
vouches (present e) = true
vouches _ = false

module _ (look : StatusSource → Presence) where
  abbrev pub denied_by_broadcaster : StatusSource → Bool
  denied_by_broadcaster src = is_broadcaster src.absence && denies (look src)

  abbrev pub vouched_by_store : StatusSource → Bool
  vouched_by_store src = not (is_chain_index src.absence) && vouches (look src)

  -- What a round's result says, given what the round had before these sources.
  pub record Reads (reply : ChainIndexReply) (srcs : List StatusSource) (asked : Bool)
      (before r : RoundResult) : Type 0 where
    pub broadcaster_vote :
        r.votes.broadcaster_vote ≡ before.votes.broadcaster_vote || any denied_by_broadcaster srcs
    pub index_vote :
        r.votes.chain_index_vote ≡ true
        → (before.votes.chain_index_vote ≡ true) ⊎ (is_absent look reply ≡ true)
    pub settled :
        is_settled r ≡ false → (is_settled before ≡ false) × (any vouched_by_store srcs ≡ false)

  abbrev pub ReadsOf : ChainIndexReply → List StatusSource → Bool → RoundResult → Scanned → Type 0
  ReadsOf reply srcs asked before (on_chain e by) = Unit
  ReadsOf reply srcs asked before (scanned r) = Reads reply srcs asked before r

  -- One source's answer that is no chain index, entered in the round.
  abbrev Notes : StatusSource → RoundResult → RoundResult → Type 0
  Notes src before r =
      (r.votes.broadcaster_vote ≡ before.votes.broadcaster_vote || denied_by_broadcaster src)
      × (r.votes.chain_index_vote ≡ before.votes.chain_index_vote)
      × (is_settled r ≡ is_settled before || vouches (look src))

  note_presence-Notes :
      (src : StatusSource) (p : Presence) (before : RoundResult)
      → look src ≡ p
      → is_chain_index src.absence ≡ false
      → Notes src before (note_presence src p before)
  unfolding note_presence is_settled record_vote
  note_presence-Notes src (present e) before l h = ground arith
  note_presence-Notes src held before l h = ground arith
  note_presence-Notes src fatal before l h = ground arith
  note_presence-Notes src absent before l h = ground arith
  note_presence-Notes src unknown before l h = ground arith

  -- What one source changes, on the way from `before` to `mid`.
  record Moves (reply : ChainIndexReply) (src : StatusSource) (before mid : RoundResult)
      : Type 0 where
    broadcaster_vote :
        mid.votes.broadcaster_vote ≡ before.votes.broadcaster_vote || denied_by_broadcaster src
    index_vote :
        mid.votes.chain_index_vote ≡ true
        → (before.votes.chain_index_vote ≡ true) ⊎ (is_absent look reply ≡ true)
    settled : is_settled mid ≡ false → (is_settled before ≡ false) × (vouched_by_store src ≡ false)

  Reads-cons :
      (reply : ChainIndexReply) (src : StatusSource) (srcs : List StatusSource)
      (asked asked' : Bool) (before mid : RoundResult) (s : Scanned)
      → Moves reply src before mid
      → ReadsOf reply srcs asked' mid s
      → ReadsOf reply (src ∷ srcs) asked before s
  Reads-cons reply src srcs asked asked' before mid (on_chain e by) m h = tt
  Reads-cons reply src srcs asked asked' before mid (scanned r) m h = record {
    broadcaster_vote = ground (arith, m.broadcaster_vote, h.broadcaster_vote);
    index_vote = λ v. elim (h.index_vote v) [ inl w ↦ m.index_vote w | inr w ↦ inr w ];
    settled = λ v. let (w, x) = h.settled v in let (y, z) = m.settled w in (y, rw (z, x));
  }

  skip-Moves :
      (reply : ChainIndexReply) (src : StatusSource) (before : RoundResult)
      → is_chain_index src.absence ≡ true
      → Moves reply src before before
  skip-Moves reply src before h = record {
    broadcaster_vote = ground arith;
    index_vote = λ v. inl v;
    settled = λ v. (v, ground arith);
  }

  note-Moves :
      (reply : ChainIndexReply) (src : StatusSource) (before : RoundResult)
      → is_chain_index src.absence ≡ false
      → Moves reply src before (note_presence src (look src) before)
  note-Moves reply src before h =
      let (b, c, d) = note_presence-Notes src (look src) before refl h in
      record {
        broadcaster_vote = b;
        index_vote = λ v. inl (sym c ∙ v);
        settled = λ v. ground arith;
      }

  -- The chain indexes have not been asked, so the round has no word of theirs.
  abbrev pub IsFresh : Bool → RoundResult → Type 0
  IsFresh asked r = asked ≡ false → r.index_word ≡ none

  note_presence-IsFresh :
      (src : StatusSource) (p : Presence) (asked : Bool) (before : RoundResult)
      → IsFresh asked before
      → IsFresh asked (note_presence src p before)
  unfolding note_presence
  note_presence-IsFresh src (present e) asked before f h = ground (arith, f h)
  note_presence-IsFresh src held asked before f h = ground (arith, f h)
  note_presence-IsFresh src fatal asked before f h = f h
  note_presence-IsFresh src absent asked before f h = ground (arith, f h)
  note_presence-IsFresh src unknown asked before f h = f h

  with_reply-Reads :
      (a : ChainIndexAnswer) (reply : ChainIndexReply) (src : StatusSource)
      (srcs : List StatusSource) (before : RoundResult)
      → reply.answer ≡ a
      → is_chain_index src.absence ≡ true
      → before.index_word ≡ none
      → ((mid : RoundResult) → ReadsOf reply srcs true mid (scan look reply srcs true mid))
      → ReadsOf reply
          (src ∷ srcs)
          false
          before
          (with_reply a reply before (scan look reply srcs true))
  unfolding with_reply
  with_reply-Reads (index_present e) reply src srcs before ea h f ih = tt
  with_reply-Reads index_absent reply src srcs before ea h f ih =
      let mid = record before {
        votes = record_vote AbsenceAuthority.chain_index before.votes;
        index_word = reply.known_by;
      } in
      Reads-cons reply src srcs false true before mid _
        (record {
          broadcaster_vote = unfold record_vote in ground arith;
          index_vote = λ v. inr (rw ea);
          settled = λ v. unfold is_settled in ground arith;
        })
        (ih mid)
  with_reply-Reads index_unknown reply src srcs before ea h f ih =
      let mid = record before { index_word = reply.known_by } in
      Reads-cons reply src srcs false true before mid _
        (record {
          broadcaster_vote = ground arith;
          index_vote = λ v. inl v;
          settled = λ v. unfold is_settled in ground arith;
        })
        (ih mid)

  pub scan-Reads :
      (reply : ChainIndexReply) (srcs : List StatusSource) (asked : Bool) (before : RoundResult)
      → IsFresh asked before
      → ReadsOf reply srcs asked before (scan look reply srcs asked before)
  unfolding scan
  scan-Reads reply [] asked before f = record {
    broadcaster_vote = ground arith;
    index_vote = λ h. inl h;
    settled = λ h. (h, refl);
  }
  scan-Reads reply (src ∷ srcs) true before f = elim (Bool-cases (is_chain_index src.absence)) [
    | inl y ↦ simp y (
        Reads-cons reply src srcs true true before before _ (skip-Moves reply src before y)
          (scan-Reads reply srcs true before f))
    | inr n ↦ simp n (
        Reads-cons reply src srcs true true before (note_presence src (look src) before) _
          (note-Moves reply src before n)
          (scan-Reads reply srcs true (note_presence src (look src) before)
            (note_presence-IsFresh src (look src) true before f)))
  ]
  scan-Reads reply (src ∷ srcs) false before f = elim (Bool-cases (is_chain_index src.absence)) [
    | inl y ↦ simp y (
        with_reply-Reads reply.answer reply src srcs before refl y (f refl)
          (λ mid. scan-Reads reply srcs true mid (λ e. absurd (cc))))
    | inr n ↦ simp n (
        Reads-cons reply src srcs false false before (note_presence src (look src) before) _
          (note-Moves reply src before n)
          (scan-Reads reply srcs false (note_presence src (look src) before)
            (note_presence-IsFresh src (look src) false before f)))
  ]
