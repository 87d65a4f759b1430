-- ===== src/Guard/Retire.antt =====
-- src/retire_guard.rs: whether a broadcaster ever took a transaction, and `post_word` of
-- src/server/post_word.rs, which reads it. A status or a word is its text; a table that the store
-- does not have is `none`; a row that is looked up by its transaction id is the first with that id.
-- The queries' own faults are left out, but for `post_word`, which asks no more where one fails.
pub mod Took
pub mod Words
use bsv_wallet_cli.Prelude.{
  ℕ, Option, none, some, Bool, true, false, ◌&&◌, ◌||◌, not, List, [], ◌∷◌, ◌==◌, if◌then◌else◌,
  any, all, length, is_some,
}
use bsv_wallet_cli.Prelude.Text.{Text, codes, text_eq, is_hex_digit, to_ascii_lowercase}

pub record ReqRow : Type 0 where
  pub txid : Text
  pub status : Text

pub record TxRow : Type 0 where
  pub txid : Option Text
  pub reference : Text
  pub status : Text

-- A row of the broadcast memory, or of the tracker's states: a transaction id and a word.
pub record WordRow : Type 0 where
  pub txid : Text
  pub word : Text

pub record Records : Type 0 where
  pub reqs : List ReqRow
  pub transactions : List TxRow
  pub broadcast_seen : Option (List WordRow)
  pub tracker_states : Option (List WordRow)

unfoldable pub is_one_of : List Text → Text → Bool
is_one_of ws s = any (λ w. text_eq w s) ws

unfoldable pub taken_req_statuses : List Text
taken_req_statuses =
    codes "unmined" ∷ codes "callback" ∷ codes "unconfirmed" ∷ codes "completed" ∷ []

unfoldable pub taken_memory_statuses : List Text
taken_memory_statuses = codes "accepted" ∷ codes "seen" ∷ codes "mined" ∷ []

unfoldable pub taken_tracker_words : List Text
taken_tracker_words = codes "announced" ∷ codes "seen" ∷ codes "mined" ∷ codes "stale" ∷ []

abbrev is_tx : Text → Option Text → Bool
is_tx txid none = false
is_tx txid (some t) = text_eq t txid

unfoldable pub req_status : List ReqRow → Text → Option Text
req_status [] txid = none
req_status (r ∷ rs) txid =
    let rest = req_status rs txid in if text_eq r.txid txid then some r.status else rest

unfoldable pub word_of : List WordRow → Text → Option Text
word_of [] txid = none
word_of (r ∷ rs) txid =
    let rest = word_of rs txid in if text_eq r.txid txid then some r.word else rest

abbrev pub is_some_of : List Text → Option Text → Bool
is_some_of ws none = false
is_some_of ws (some s) = is_one_of ws s

unfoldable pub has_completed : Records → Text → Bool
has_completed rec txid =
    any (λ (t : TxRow). is_tx txid t.txid && text_eq t.status (codes "completed")) rec.transactions

unfoldable pub in_memory : Option (List WordRow) → Text → Bool
in_memory none txid = false
in_memory (some rows) txid =
    any (λ (r : WordRow). text_eq r.txid txid && is_one_of taken_memory_statuses r.word) rows

unfoldable pub in_tracker : Option (List WordRow) → Text → Bool
in_tracker none txid = false
in_tracker (some rows) txid = is_some_of taken_tracker_words (word_of rows txid)

unfoldable pub broadcaster_took : Records → Text → Bool
unfolding in_memory in_tracker
broadcaster_took rec txid =
    if is_some_of taken_req_statuses (req_status rec.reqs txid)
    then true
    else if has_completed rec txid
    then true
    else if in_memory rec.broadcast_seen txid
    then true
    else in_tracker rec.tracker_states txid

unfoldable pub first_taken : Records → List Text → Option Text
first_taken rec [] = none
first_taken rec (t ∷ ts) =
    let rest = first_taken rec ts in if broadcaster_took rec t then some t else rest

-- The transaction that a reference of `createAction` names: its row's id, where it has one.
by_reference : List TxRow → Text → Option (Option Text)
by_reference [] reference = none
by_reference (t ∷ ts) reference =
    let rest = by_reference ts reference in
    if text_eq t.reference reference then some t.txid else rest

named_txid : Text → Option (Option Text) → Option Text
named_txid reference (some txid) = txid
named_txid reference none =
    if (length reference == 64) && all is_hex_digit reference
    then some (to_ascii_lowercase reference)
    else none

if_taken : Records → Option Text → Option Text
if_taken rec none = none
if_taken rec (some txid) = if broadcaster_took rec txid then some txid else none

unfoldable pub abort_refused_for : Records → Text → Option Text
unfolding by_reference named_txid if_taken
abort_refused_for rec reference =
    if_taken rec (named_txid reference (by_reference rec.transactions reference))

-- The served doors' word: `built`, with the request's status and the last hint of its history.
pub record PostWord : Type 0 where
  pub request : Text
  pub hint : Option Text

unfoldable pub waiting_statuses : List Text
waiting_statuses = codes "unsent" ∷ codes "sending" ∷ codes "unprocessed" ∷ []

-- `took` is `none` where that read failed, which counts as taken.
abbrev took_or_failed : Option Bool → Bool
took_or_failed none = true
took_or_failed (some b) = b

word_for : (Text → Option Text) → Option Bool → Text → Option Text → Option PostWord
word_for last_hint took txid none = none
word_for last_hint took txid (some request) =
    if not (is_one_of waiting_statuses request)
    then none
    else if took_or_failed took
    then none
    else some (record { request = request; hint = last_hint txid })

unfoldable pub post_word : Records → (Text → Option Text) → Bool → Text → Option PostWord
unfolding word_for
post_word rec last_hint reads txid =
    word_for last_hint (if reads then some (broadcaster_took rec txid) else none) txid
      (req_status rec.reqs txid)
