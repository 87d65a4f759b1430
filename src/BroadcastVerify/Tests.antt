-- ===== src/BroadcastVerify/Tests.antt =====
-- The verifier's theorems with a broadcaster, a store and two chain indexes.
use bsv_wallet_cli.Prelude.{ℕ, ◌≡◌, refl, none, Bool, true, false, ◌&&◌, List, [], ◌∷◌, any, all}
use bsv_wallet_cli.Prelude.Text.{codes, text_eq, trim_start, trim_end, is_whitespace}
use bsv_wallet_cli.BroadcastVerify.Probe.{
  Presence, held, absent, unknown, AbsenceAuthority, no_authority, broadcaster, chain_index,
  StatusSource, SourceKind, arcade, classic_arc, woc_index, bananablocks_index,
}
use bsv_wallet_cli.BroadcastVerify.Indexes.{
  ask_chain_indexes, record_vote, is_definitive, indexes_of, votes,
}
use bsv_wallet_cli.BroadcastVerify.Indexes.Absence.{is_absent, clean, ask_chain_indexes_absent}
use bsv_wallet_cli.BroadcastVerify.Plane.{
  main, BroadcastPlane, arcade_v2, plane_kind, base, normalize_base,
}
use bsv_wallet_cli.BroadcastVerify.Sources.{
  build_sources, broadcaster_source, woc_source, bitails_source, bananablocks_sources,
  gorillapool_sources, gorillapool_arc_url, taal_sources, store_source,
}
use bsv_wallet_cli.BroadcastVerify.Sources.Layout.{DeniedByThree, verify_report-build_sources}
use bsv_wallet_cli.BroadcastVerify.Schedule.{
  delay_before_round, pauses, grown, absence_window, default_attempts, default_delay,
}
use bsv_wallet_cli.BroadcastVerify.Rounds.{
  verify_report, round, is_settled, confirmed, verdict_rejected,
}
use bsv_wallet_cli.BroadcastVerify.Rounds.Verdict.{
  Dropped, verify_report-rejected, verify_report-vouched,
}

abbrev source : AbsenceAuthority → SourceKind → StatusSource
source absence kind = record {
  name = [];
  url_template = [];
  auth = none;
  absence = absence;
  kind = kind;
}

abbrev sources : List StatusSource
sources =
    source broadcaster arcade
    ∷ source no_authority classic_arc
    ∷ source chain_index woc_index
    ∷ source chain_index bananablocks_index
    ∷ []

-- Nobody has the transaction; BananaBlocks can not say.
abbrev nobody : ℕ → StatusSource → Presence
nobody n src = elim src.kind [ bananablocks_index ↦ unknown | _ ↦ absent ]

-- The second store holds it, and everyone else denies it.
abbrev stored : ℕ → StatusSource → Presence
stored n src = elim src.kind [ classic_arc ↦ held | _ ↦ absent ]

abbrev counter : ℕ → ℕ
counter n = n

abbrev in_time : ℕ → Bool
in_time n = false

rejected_by_all :
    (verify_report nobody counter in_time sources true 2).verification ≡ verdict_rejected
unfolding verify_report round ask_chain_indexes record_vote is_settled is_definitive indexes_of
rejected_by_all = refl

verify_report-rejected_example : Dropped nobody counter in_time sources 2
verify_report-rejected_example =
    verify_report-rejected nobody counter in_time sources true 2 rejected_by_all

verify_report-vouched_example :
    (verify_report stored counter in_time sources true 3).verification ≡ confirmed
verify_report-vouched_example = verify_report-vouched stored counter in_time sources 2 refl

ask_chain_indexes_absent_example :
    is_absent (nobody 0) (ask_chain_indexes (nobody 0) 5 sources)
    ≡ all (clean (nobody 0)) (indexes_of sources) && any votes (indexes_of sources)
ask_chain_indexes_absent_example = ask_chain_indexes_absent (nobody 0) 5 sources

abbrev plane : BroadcastPlane
plane = arcade_v2 (codes "https://arcade.example")

built_sources_reject :
    (verify_report nobody counter in_time (build_sources main plane none none) true 1).verification
    ≡ verdict_rejected
unfolding verify_report round ask_chain_indexes record_vote is_settled is_definitive indexes_of
    build_sources broadcaster_source woc_source bitails_source bananablocks_sources
    gorillapool_sources gorillapool_arc_url taal_sources store_source plane_kind base normalize_base
    text_eq trim_start trim_end is_whitespace
built_sources_reject = refl

verify_report-build_sources_example : DeniedByThree nobody counter in_time main plane none none 1
verify_report-build_sources_example =
    verify_report-build_sources nobody counter in_time main plane none none true 1
      built_sources_reject

default_window : absence_window default_delay default_attempts ≡ 31250
unfolding absence_window pauses delay_before_round grown
default_window = refl
