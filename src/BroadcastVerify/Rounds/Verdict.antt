-- ===== src/BroadcastVerify/Rounds/Verdict.antt =====
-- What a verdict rests on.
use bsv_wallet_cli.Prelude.{
  ℕ, zero, suc, ◌+◌, ◌<◌, ◌≤◌, ◌≡◌, refl, sym, ◌∙◌, none, some, Bool, true, false, ◌&&◌, ◌||◌, not,
  List, [], ◌∷◌, arith, ◌==◌, if◌then◌else◌, is_empty, any, all, Bool-cases, inl, inr, subst,
}
use bsv_wallet_cli.BroadcastVerify.Probe.{Presence, StatusSource}
use bsv_wallet_cli.BroadcastVerify.Indexes.{is_definitive, ask_chain_indexes, votes, indexes_of}
use bsv_wallet_cli.BroadcastVerify.Indexes.Absence.{clean, ask_chain_indexes_absent}
use bsv_wallet_cli.BroadcastVerify.Rounds.{
  RoundResult, Scanned, Ended, verdict_rejected, confirmed, on_chain, scanned, by_chain, by_round,
  empty_round, is_settled, next_round, after_scan, round, rounds, report_of, report_of_round,
  verify_report,
}
use bsv_wallet_cli.BroadcastVerify.Rounds.Scan.{
  Reads, ReadsOf, scan-Reads, denied_by_broadcaster, vouched_by_store,
}

module _ (look : ℕ → StatusSource → Presence) (rotation : ℕ → ℕ) (past_deadline : ℕ → Bool)
    (sources : List StatusSource) where
  abbrev one_round : ℕ → Scanned
  one_round = round look rotation past_deadline sources

  -- A round's result, where it has one, says what the sources answered in that round.
  round-Reads :
      (n : ℕ)
      → ReadsOf
          (look n)
          (ask_chain_indexes (look n) (rotation n) sources)
          sources
          false
          empty_round
          (one_round n)
  unfolding round
  round-Reads n =
      scan-Reads (look n) (ask_chain_indexes (look n) (rotation n) sources) sources false
        empty_round (λ e. refl)

  -- The result that the rounds end with is that of one of them.
  abbrev EndsIn : ℕ → ℕ → Ended → Type 0
  EndsIn left n (by_chain e by) = Unit
  EndsIn left n (by_round none) = Unit
  EndsIn left n (by_round (some r)) = (m : ℕ) × (n ≤ m) × (m < n + left) × (one_round m ≡ scanned r)

  EndsIn-suc : (left n : ℕ) (e : Ended) → EndsIn left (suc n) e → EndsIn (suc left) n e
  EndsIn-suc left n (by_chain e by) h = tt
  EndsIn-suc left n (by_round none) h = tt
  EndsIn-suc left n (by_round (some r)) (m, a, b, c) = (m, omega arith, omega arith, c)

  next_round-EndsIn :
      (left n : ℕ) (settled late : Bool) (r : RoundResult) (rest : Ended)
      → one_round n ≡ scanned r
      → EndsIn left (suc n) rest
      → EndsIn (suc left) n (next_round left settled late r rest)
  unfolding next_round
  next_round-EndsIn left n true late r rest e h = (n, omega arith, omega arith, e)
  next_round-EndsIn left n false late r rest e h = elim (Bool-cases (left == 0)) [
    | inl y ↦ simp y (n, omega arith, omega arith, e)
    | inr m ↦ simp m (late_case late)
  ]
    where
      late_case : (late : Bool) → EndsIn (suc left) n (if late then by_round (some r) else rest)
      late_case true = (n, omega arith, omega arith, e)
      late_case false = EndsIn-suc left n rest h

  after_scan-EndsIn :
      (left n : ℕ) (late : Bool) (s : Scanned) (rest : Ended)
      → one_round n ≡ s
      → EndsIn left (suc n) rest
      → EndsIn (suc left) n (after_scan left late s rest)
  unfolding after_scan
  after_scan-EndsIn left n late (on_chain x by) rest e h = tt
  after_scan-EndsIn left n late (scanned r) rest e h =
      next_round-EndsIn left n (is_settled r) late r rest e h

  rounds-EndsIn :
      (left n : ℕ) → EndsIn left n (rounds look rotation past_deadline sources left n none)
  unfolding rounds
  rounds-EndsIn zero n = tt
  rounds-EndsIn (suc left) n =
      after_scan-EndsIn left n (past_deadline n) (one_round n) _ refl (rounds-EndsIn left (suc n))

  -- Why the transaction counts as dropped.
  pub record Dropped (attempts : ℕ) : Type 0 where
    pub round_number : ℕ
    pub in_window : round_number < attempts
    pub by_broadcaster : any (denied_by_broadcaster (look round_number)) sources ≡ true
    pub by_indexes :
        (all (clean (look round_number)) (indexes_of sources) && any votes (indexes_of sources))
        ≡ true
    pub by_no_store : any (vouched_by_store (look round_number)) sources ≡ false

  -- What the verdict of a round's report says of the round.
  unsettled :
      (r : RoundResult)
      → (report_of_round r).verification ≡ verdict_rejected
      → (is_settled r ≡ false)
        × (r.votes.broadcaster_vote ≡ true)
        × (r.votes.chain_index_vote ≡ true)
  unfolding report_of_round is_definitive
  unsettled r v = ground arith

  absent_everywhere :
      (m : ℕ) (r : RoundResult)
      → Reads (look m) (ask_chain_indexes (look m) (rotation m) sources) sources false empty_round r
      → r.votes.chain_index_vote ≡ true
      → (all (clean (look m)) (indexes_of sources) && any votes (indexes_of sources)) ≡ true
  absent_everywhere m r reads v = elim (reads.index_vote v) [
    | inl w ↦ absurd (cc)
    | inr w ↦ sym (ask_chain_indexes_absent (look m) (rotation m) sources) ∙ w
  ]

  rejected-Dropped :
      (attempts : ℕ) (e : Ended)
      → EndsIn attempts 0 e
      → (report_of e).verification ≡ verdict_rejected
      → Dropped attempts
  unfolding report_of
  rejected-Dropped attempts (by_chain e by) h v = cc
  rejected-Dropped attempts (by_round none) h v = cc
  rejected-Dropped attempts (by_round (some r)) (m, a, b, c) v =
      let reply = ask_chain_indexes (look m) (rotation m) sources in
      let reads : Reads (look m) reply sources false empty_round r =
        subst (ReadsOf (look m) reply sources false empty_round) c (round-Reads m) in
      let (settled, by_broadcaster, by_index) = unsettled r v in
      record {
        round_number = m;
        in_window = omega arith;
        by_broadcaster = sym reads.broadcaster_vote ∙ by_broadcaster;
        by_indexes = absent_everywhere m r reads by_index;
        by_no_store = (reads.settled settled).1;
      }

  -- A verdict of rejection rests on one of the rounds of the window, in which the broadcaster's
  -- source denied the transaction, every chain index that votes said absent, one at least, with
  -- BananaBlocks knowing no block of it, and no other source held or had seen it.
  pub verify_report-rejected :
      (enabled : Bool) (attempts : ℕ)
      → (verify_report look rotation past_deadline sources enabled attempts).verification
        ≡ verdict_rejected
      → Dropped attempts
  unfolding verify_report
  verify_report-rejected enabled attempts h = elim (Bool-cases (not enabled || is_empty sources)) [
    | inl y ↦ absurd (cc (simp y at h))
    | inr n ↦
        rejected-Dropped attempts (rounds look rotation past_deadline sources attempts 0 none)
          (rounds-EndsIn attempts 0) (simp n at h)
  ]

  confirmed_of_vouched :
      (r : RoundResult)
      → Reads (look 0) (ask_chain_indexes (look 0) (rotation 0) sources) sources false empty_round r
      → any (vouched_by_store (look 0)) sources ≡ true
      → is_settled r ≡ true
  confirmed_of_vouched r reads h = elim (Bool-cases (is_settled r)) [
    | inl y ↦ y
    | inr n ↦ absurd (cc (h, (reads.settled n).1))
  ]

  first_round_settles :
      (left : ℕ) (late : Bool) (s : Scanned) (rest : Ended)
      → ReadsOf
          (look 0)
          (ask_chain_indexes (look 0) (rotation 0) sources)
          sources
          false
          empty_round
          s
      → any (vouched_by_store (look 0)) sources ≡ true
      → (report_of (after_scan left late s rest)).verification ≡ confirmed
  unfolding report_of report_of_round after_scan
  first_round_settles left late (on_chain e by) rest reads h = refl
  first_round_settles left late (scanned r) rest reads h =
      ground (arith, confirmed_of_vouched r reads h)

  -- A transaction that a store holds or has seen when it is first asked is confirmed, whatever the
  -- broadcaster and the chain indexes say, if the verifier is on and has a round.
  pub verify_report-vouched :
      (attempts : ℕ)
      → any (vouched_by_store (look 0)) sources ≡ true
      → (verify_report look rotation past_deadline sources true (suc attempts)).verification
        ≡ confirmed
  unfolding verify_report rounds
  verify_report-vouched attempts h =
      simp (not_empty sources h)
        (first_round_settles attempts (past_deadline 0) (one_round 0) _ (round-Reads 0) h)
    where
      not_empty :
          (srcs : List StatusSource)
          → any (vouched_by_store (look 0)) srcs ≡ true
          → is_empty srcs ≡ false
      not_empty [] e = absurd (cc)
      not_empty (x ∷ xs) e = refl
