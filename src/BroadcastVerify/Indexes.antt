-- ===== src/BroadcastVerify/Indexes.antt =====
-- `AbsenceVotes`, `ChainIndexAnswer` and `ask_chain_indexes` of src/broadcast_verify.rs. The
-- indexes are asked from a start that rotates; `look` is what each answers in this round.
pub mod Absence
use bsv_wallet_cli.Prelude.{
  ℕ, suc, ◌+◌, ◌%◌, Option, none, some, Bool, true, false, ◌&&◌, not, List, [], ◌∷◌, ◌++◌, ◌==◌,
  ltb, if◌then◌else◌, length, select, take, drop,
}
use bsv_wallet_cli.Prelude.Text.{Text}
use bsv_wallet_cli.BroadcastVerify.Probe.{
  NetworkEvidence, seen, mined, Presence, held, fatal, absent, unknown, present, AbsenceAuthority,
  no_authority, broadcaster, chain_index, StatusSource, is_chain_index, is_bananablocks,
}

pub record AbsenceVotes : Type 0 where
  pub broadcaster_vote : Bool
  pub chain_index_vote : Bool

unfoldable pub record_vote : AbsenceAuthority → AbsenceVotes → AbsenceVotes
record_vote broadcaster v = record v { broadcaster_vote = true }
record_vote chain_index v = record v { chain_index_vote = true }
record_vote no_authority v = v

unfoldable pub is_definitive : AbsenceVotes → Bool
is_definitive v = v.broadcaster_vote && v.chain_index_vote

pub data ChainIndexAnswer : Type 0 where
  index_present : NetworkEvidence → ChainIndexAnswer
  index_absent index_unknown : ChainIndexAnswer

pub record ChainIndexReply : Type 0 where
  pub answer : ChainIndexAnswer
  pub by : Option Text
  pub known_by : Option Text

-- The counts of the loop.
pub record Tally : Type 0 where
  pub absences : ℕ
  pub voters : ℕ
  pub could_not_look : Bool
  pub known : Option Text

abbrev pub votes : StatusSource → Bool
votes src = not (is_bananablocks src.kind)

-- After the last index.
conclude : Tally → ChainIndexReply
conclude t = record {
  answer =
      if ltb 0 t.voters && (t.absences == t.voters) && not t.could_not_look
      then index_absent
      else index_unknown;
  by = none;
  known_by = t.known;
}

abbrev counted : StatusSource → Tally → Tally
counted src t = if votes src then record t { voters = t.voters + 1 } else t

abbrev missed : StatusSource → Tally → Tally
missed src t = if votes src then record t { could_not_look = true } else t

-- One index's answer: a reply that ends the question, or the counts to go on with.
pub data Asked : Type 0 where
  answered : ChainIndexReply → Asked
  go_on : Tally → Asked

abbrev found : StatusSource → NetworkEvidence → Asked
found src e = answered (record { answer = index_present e; by = some src.name; known_by = none })

ask_one : StatusSource → Presence → Tally → Asked
ask_one src (present mined) t = found src mined
ask_one src (present seen) t =
    if votes src then found src seen else go_on (record t { known = some src.name })
ask_one src absent t = go_on (if votes src then record t { absences = t.absences + 1 } else t)
ask_one src held t = go_on (missed src t)
ask_one src fatal t = go_on (missed src t)
ask_one src unknown t = go_on (missed src t)

ask_rest : Asked → (Tally → ChainIndexReply) → ChainIndexReply
ask_rest (answered r) rest = r
ask_rest (go_on t) rest = rest t

ask : (StatusSource → Presence) → List StatusSource → Tally → ChainIndexReply
unfolding ask_one conclude ask_rest
ask look [] t = conclude t
ask look (src ∷ rest) t = ask_rest (ask_one src (look src) (counted src t)) (ask look rest)

-- The sources from position `start` on, then those before it.
abbrev rotate : ℕ → List StatusSource → List StatusSource
rotate start xs = drop start xs ++ take start xs

abbrev no_tally : Tally
no_tally = record { absences = 0; voters = 0; could_not_look = false; known = none }

unfoldable pub indexes_of : List StatusSource → List StatusSource
indexes_of sources = select (λ (s : StatusSource). is_chain_index s.absence) sources

-- `rotation` is the value of the shared counter before this call.
unfoldable pub ask_chain_indexes :
    (StatusSource → Presence) → ℕ → List StatusSource → ChainIndexReply
unfolding ask indexes_of
ask_chain_indexes look rotation sources =
    let indexes = indexes_of sources in
    ask look (rotate (rotation % length indexes) indexes) no_tally
