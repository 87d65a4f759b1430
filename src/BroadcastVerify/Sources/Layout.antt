-- ===== src/BroadcastVerify/Sources/Layout.antt =====
-- What authority the sources have, and what a rejection over them rests on.
use bsv_wallet_cli.Prelude.{
  ℕ, ◌<◌, ◌≡◌, refl, ◌∙◌, sym, Option, none, some, Bool, true, false, ◌||◌, List, [], ◌∷◌, ◌++◌,
  arith, any,
}
use bsv_wallet_cli.Prelude.Text.{Text, codes}
use bsv_wallet_cli.BroadcastVerify.Probe.{Presence, absent, StatusSource}
use bsv_wallet_cli.BroadcastVerify.Indexes.{indexes_of}
use bsv_wallet_cli.BroadcastVerify.Indexes.Absence.{is_clean}
use bsv_wallet_cli.BroadcastVerify.Rounds.{verify_report, verdict_rejected}
use bsv_wallet_cli.BroadcastVerify.Rounds.Scan.{denies, denied_by_broadcaster}
use bsv_wallet_cli.BroadcastVerify.Rounds.Verdict.{Dropped, verify_report-rejected}
use bsv_wallet_cli.BroadcastVerify.Plane.{taal_arc_url, Chain, BroadcastPlane}
use bsv_wallet_cli.BroadcastVerify.Sources.{
  broadcaster_source, woc_source, bitails_source, bananablocks_sources, bananablocks_source,
  gorillapool_sources, taal_sources, store_source, gorillapool_arc_url, build_sources,
}

any-append :
    (f : StatusSource → Bool) (xs ys : List StatusSource) → any f (xs ++ ys) ≡ any f xs || any f ys
any-append f [] ys = refl
any-append f (x ∷ xs) ys = ground (arith, any-append f xs ys)

module _ (look : StatusSource → Presence) (chain : Chain) (plane : BroadcastPlane) where
  abbrev denied : StatusSource → Bool
  denied = denied_by_broadcaster look

  store_denies :
      (name url : Text) (key : Option Text) → any denied (store_source plane name url key) ≡ false
  unfolding store_source
  store_denies name url key = ground arith

  gorillapool_denies : (url : Option Text) → any denied (gorillapool_sources plane url) ≡ false
  unfolding gorillapool_sources
  gorillapool_denies none = refl
  gorillapool_denies (some url) = store_denies (codes "arc-gorillapool") url none

  taal_denies : (key : Option Text) → any denied (taal_sources chain plane key) ≡ false
  unfolding taal_sources
  taal_denies none = refl
  taal_denies (some key) = store_denies (codes "arc-taal") (taal_arc_url chain) (some key)

  stores_deny :
      (url key : Option Text)
      → any denied (gorillapool_sources plane url ++ taal_sources chain plane key) ≡ false
  stores_deny url key = rw (
    any-append denied (gorillapool_sources plane url) (taal_sources chain plane key),
    gorillapool_denies url,
    taal_denies key,
  )

  -- Only the broadcaster's own source can deny.
  any-denied :
      (key banana : Option Text)
      → any denied (build_sources chain plane key banana)
        ≡ denies (look (broadcaster_source plane key))
  unfolding build_sources broadcaster_source woc_source bitails_source bananablocks_sources
      bananablocks_source
  any-denied key none = ground (arith, stores_deny (gorillapool_arc_url chain) key)
  any-denied key (some b) = ground (arith, stores_deny (gorillapool_arc_url chain) key)

absent_if_clean : (p : Presence) → is_clean true p ≡ true → p ≡ absent
absent_if_clean absent h = refl
absent_if_clean _ h = absurd (cc)

module _ (look : ℕ → StatusSource → Presence) (rotation : ℕ → ℕ) (past_deadline : ℕ → Bool)
    (chain : Chain) (plane : BroadcastPlane) (key banana : Option Text) where
  -- The three that a rejection needs, in one round.
  pub record DeniedByThree (attempts : ℕ) : Type 0 where
    pub round_number : ℕ
    pub in_window : round_number < attempts
    pub by_broadcaster : denies (look round_number (broadcaster_source plane key)) ≡ true
    pub by_woc : look round_number (woc_source chain) ≡ absent
    pub by_bitails : look round_number (bitails_source chain) ≡ absent

  denied_by_three :
      (attempts : ℕ)
      → Dropped look rotation past_deadline (build_sources chain plane key banana) attempts
      → DeniedByThree attempts
  unfolding build_sources woc_source bitails_source broadcaster_source indexes_of
  denied_by_three attempts d = record {
    round_number = d.round_number;
    in_window = d.in_window;
    by_broadcaster =
        sym (any-denied (look d.round_number) chain plane key banana) ∙ d.by_broadcaster;
    by_woc =
        absent_if_clean (look d.round_number (woc_source chain)) (ground (arith, d.by_indexes));
    by_bitails =
        absent_if_clean (look d.round_number (bitails_source chain)) (ground (arith, d.by_indexes));
  }

  -- With the sources that the verifier builds, a verdict of rejection rests on one round of the
  -- window in which the broadcaster that took the transaction denied it and both WhatsOnChain and
  -- Bitails had none: no other store's word, and not BananaBlocks', stands for one of the three.
  pub verify_report-build_sources :
      (enabled : Bool) (attempts : ℕ)
      → (verify_report look rotation past_deadline
          (build_sources chain plane key banana)
          enabled
          attempts).verification
        ≡ verdict_rejected
      → DeniedByThree attempts
  verify_report-build_sources enabled attempts h = denied_by_three attempts (
      verify_report-rejected look rotation past_deadline (build_sources chain plane key banana)
        enabled attempts h)
