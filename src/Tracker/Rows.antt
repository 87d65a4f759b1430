-- ===== src/Tracker/Rows.antt =====
-- `TrackedRow` of src/tracker_host.rs: the stored inputs of a transaction's state, and their replay
-- through the crate's step. The fields that the replay does not read are left out.
use bsv_wallet_cli.Prelude.{
  ℕ, Option, none, some, Bool, false, List, [], ◌∷◌, ◌++◌, Result, ok, err, if◌then◌else◌,
}
use bsv_wallet_cli.Prelude.Text.{Text, to_ascii_lowercase}
use bsv_wallet_cli.SpendGate.Hold.{Word}
use bsv_wallet_cli.Tracker.Headers.{Headers, Deactivated, old_branch, new_branch}

-- The crate's `CheckError`: the header service's fault, a root that does not match, a path that is
-- no proof, and the crate's others.
pub data CheckError : Type 0 where
  headers_error root_mismatch invalid_proof other_error : Text → CheckError

-- The crate's inputs, as far as the host gives them here.
pub data Input (Hint Proof Event Node : Type 0) : Type 0 where
  host_build spend_attempt recheck : Input Hint Proof Event Node
  hint : Hint → Input Hint Proof Event Node
  proof_evidence : Proof → Input Hint Proof Event Node
  chain_evidence : Event → Input Hint Proof Event Node
  verdict_evidence : Node → Input Hint Proof Event Node

-- The crate bsv_tracker and the SDK: a state's steps and readings, the proof that a stored path is,
-- the event that a stored envelope is, and the headers that a reorg took away.
pub record Machine (State Hint Proof Event Node : Type 0) : Type 0 where
  pub new_state : Text → State
  pub step : Headers → Input Hint Proof Event Node → State → State × Option CheckError
  pub word : State → Word
  -- `word().height()`, and the height of a `Mined` word.
  pub height : State → Option ℕ
  pub mined_height : State → ℕ
  pub is_suspect : State → Bool
  pub proof_of : Text → Text → Result CheckError Proof
  pub height_of : Proof → ℕ
  pub decode_envelope : Text → Option Event
  pub deactivated_headers : Event → Deactivated
  pub path_hex : Text → Option Text
  pub error_text : CheckError → Text

pub record TrackedRow (Hint Node : Type 0) : Type 0 where
  pub txid : Text
  pub built : Bool
  pub hints : List Hint
  pub bump : Option Text
  pub chain : List Text
  pub verdict : Option Node

module _ {State Hint Proof Event Node : Type 0} (crate : Machine State Hint Proof Event Node) where
  -- `TrackedRow::new`, for a transaction that the wallet did not build.
  unfoldable pub unbuilt_row : Text → TrackedRow Hint Node
  unbuilt_row txid = record {
    txid = to_ascii_lowercase txid;
    built = false;
    hints = [];
    bump = none;
    chain = [];
    verdict = none;
  }

  decoded : Option Event → List Event → List Event
  decoded none events = events
  decoded (some e) events = e ∷ events

  unfoldable pub chain_events : List Text → List Event
  unfolding decoded
  chain_events [] = []
  chain_events (json ∷ chain) = decoded (crate.decode_envelope json) (chain_events chain)

  -- The header that was entered last stands at its height.
  enter_headers : Deactivated → Deactivated → Deactivated
  enter_headers [] gone = gone
  enter_headers ((h, header) ∷ headers) gone = enter_headers headers (
      (
        h,
        record {
          hash = to_ascii_lowercase header.hash;
          merkle_root = to_ascii_lowercase header.merkle_root;
        },
      )
      ∷ gone)

  gather : List Event → Deactivated → Deactivated
  gather [] gone = gone
  gather (e ∷ events) gone = gather events (enter_headers (crate.deactivated_headers e) gone)

  unfoldable pub deactivated : TrackedRow Hint Node → Deactivated
  unfolding gather enter_headers
  deactivated row = gather (chain_events row.chain) []

  unfoldable pub row_proof : TrackedRow Hint Node → Option (Result CheckError Proof)
  row_proof row = elim (row.bump) [ none ↦ none | some hex ↦ some (crate.proof_of row.txid hex) ]

  height_if : Option (Result CheckError Proof) → Option ℕ
  height_if none = none
  height_if (some (ok p)) = some (crate.height_of p)
  height_if (some (err e)) = none

  unfoldable pub proof_height : TrackedRow Hint Node → Option ℕ
  unfolding height_if
  proof_height row = height_if (row_proof row)

  feed : Headers → List (Input Hint Proof Event Node) → State → State
  feed headers [] s = s
  feed headers (i ∷ is) s = feed headers is (crate.step headers i s).0

  hints_of : List Hint → List (Input Hint Proof Event Node)
  hints_of [] = []
  hints_of (h ∷ hs) = hint h ∷ hints_of hs

  events_of : List Event → List (Input Hint Proof Event Node)
  events_of [] = []
  events_of (e ∷ es) = chain_evidence e ∷ events_of es

  before_proof : TrackedRow Hint Node → List (Input Hint Proof Event Node)
  before_proof row = if row.built then host_build ∷ hints_of row.hints else hints_of row.hints

  after_proof : TrackedRow Hint Node → List (Input Hint Proof Event Node)
  after_proof row =
      events_of (chain_events row.chain)
      ++ elim (row.verdict) [ none ↦ [] | some v ↦ verdict_evidence v ∷ [] ]

  step_proof : Headers → Option (Result CheckError Proof) → State → State × Option CheckError
  step_proof headers none s = (s, none)
  step_proof headers (some (ok p)) s = crate.step headers (proof_evidence p) s
  step_proof headers (some (err fault)) s = (s, some fault)

  -- The state that the stored inputs give, and the stored path's fault.
  unfoldable pub replay : TrackedRow Hint Node → Headers → State × Option CheckError
  unfolding feed before_proof after_proof hints_of events_of step_proof
  replay row live =
      let new = new_branch (deactivated row) live in
      let built = feed new (before_proof row) (crate.new_state row.txid) in
      let proved = step_proof (old_branch (deactivated row) live) (row_proof row) built in
      (feed new (after_proof row) proved.0, proved.1)
