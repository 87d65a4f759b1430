-- ===== src/Tracker/Creators.antt =====
-- `read_creators` of src/tracker_host.rs: the guard's reading of each creator, against one read of
-- the headers. Faults of the database are left out.
use bsv_wallet_cli.Prelude.{
  ℕ, ◌+◌, ◌-◌, max, Option, none, some, Bool, true, false, ◌&&◌, ◌||◌, not, List, [], ◌∷◌, map,
  Result, ok, err, leb, if◌then◌else◌,
}
use bsv_wallet_cli.Prelude.Text.{Text, text_eq, to_ascii_lowercase}
use bsv_wallet_cli.SpendGate.Hold.{CreatorReading, Word, mined}
use bsv_wallet_cli.SpendGate.Assess.{Creator, Readings}
use bsv_wallet_cli.Tracker.Headers.{
  Headers, HeaderSnapshot, HeaderService, take_snapshot, snapshot_tip, snapshot_headers,
}
use bsv_wallet_cli.Tracker.Rows.{
  CheckError, headers_error, root_mismatch, spend_attempt, recheck, Machine, TrackedRow,
  unbuilt_row, proof_height, replay,
}

-- `DEFAULT_SPEND_DEPTH`.
abbrev pub default_spend_depth : ℕ
default_spend_depth = 1

unfoldable pub is_mined : Word → Bool
is_mined mined = true
is_mined _ = false

min_height : List (Text × ℕ) → Option ℕ
min_height [] = none
min_height ((key, h) ∷ splits) = elim (min_height splits) [
  | none ↦ some h
  | some low ↦ some (if leb h low then h else low)
]

-- `open_split_floor` of the splits that the feed delivered and has not resolved.
unfoldable pub open_split_floor : List (Text × ℕ) → Option ℕ
unfolding min_height
open_split_floor splits = min_height splits

unfoldable pub is_root_mismatch : CheckError → Bool
is_root_mismatch (root_mismatch e) = true
is_root_mismatch _ = false

unfoldable pub is_headers_error : CheckError → Bool
is_headers_error (headers_error e) = true
is_headers_error _ = false

-- A root that does not match is the word's to say; any other fault is of the reading.
unfoldable pub kept_fault : Option CheckError → Option CheckError
kept_fault none = none
kept_fault (some e) = if is_root_mismatch e then none else some e

module _ {State Hint Proof Event Node : Type 0} (crate : Machine State Hint Proof Event Node) where
  unfoldable pub tracks_mined : State → Bool
  tracks_mined s = is_mined (crate.word s)

  unfoldable pub stepped :
      State × Option CheckError
      → (State → State × Result CheckError Bool)
      → State × Result CheckError Bool
  stepped (s, none) next = next s
  stepped (s, some e) next = (s, err e)

  -- `readme_spend_guard`, and the state that it leaves.
  unfoldable pub readme_spend_guard : Headers → State → State × Result CheckError Bool
  readme_spend_guard headers s = stepped (crate.step headers spend_attempt s) λ s1.
      stepped (crate.step headers recheck s1)
        λ s2. (s2, ok (tracks_mined s2 && not (crate.is_suspect s2)))

  unfoldable pub depth_under : ℕ → ℕ → ℕ
  depth_under tip height = tip + 1 - height

  unfoldable pub is_deep : ℕ → ℕ → Result Text ℕ → Result CheckError Bool
  is_deep spend_depth height (err e) = err (headers_error e)
  is_deep spend_depth height (ok tip) =
      ok (leb (max spend_depth default_spend_depth) (depth_under tip height))

  unfoldable pub deep_if : Option ℕ → Headers → ℕ → Result CheckError Bool
  deep_if none headers spend_depth = ok false
  deep_if (some height) headers spend_depth = is_deep spend_depth height headers.tip_height

  unfoldable pub deep_enough : State → Headers → ℕ → Result CheckError Bool
  deep_enough s headers spend_depth = deep_if (crate.height s) headers spend_depth

  unfoldable pub under_split : State → Option ℕ → Bool
  under_split s none = false
  under_split s (some floor) = tracks_mined s && leb floor (crate.mined_height s)

  unfoldable pub depth_of : Option ℕ → Option ℕ → ℕ
  depth_of (some height) (some tip) = depth_under tip height
  depth_of _ _ = 0

  unfoldable pub and_deep :
      State × Result CheckError Bool → Headers → ℕ → State × Result CheckError Bool
  and_deep (s, err e) headers spend_depth = (s, err e)
  and_deep (s, ok false) headers spend_depth = (s, ok false)
  and_deep (s, ok true) headers spend_depth = (s, deep_enough s headers spend_depth)

  -- The guard runs only where the stored inputs could be replayed.
  unfoldable pub verdict : Option CheckError → State → Headers → ℕ → State × Result CheckError Bool
  verdict (some fault) s headers spend_depth = (s, ok false)
  verdict none s headers spend_depth = and_deep (readme_spend_guard headers s) headers spend_depth

  unfoldable pub first_fault : Option CheckError → Result CheckError Bool → Option CheckError
  first_fault (some fault) v = some fault
  first_fault none (ok b) = none
  first_fault none (err e) = some e

  unfoldable pub says_yes : Result CheckError Bool → Bool
  says_yes (ok b) = b
  says_yes (err e) = false

  unfoldable pub reading :
      HeaderSnapshot
      → Option ℕ
      → State
      → Result CheckError Bool
      → Option CheckError
      → CreatorReading
  reading snapshot floor s v fault = record {
    word = crate.word s;
    depth = depth_of (crate.height s) (snapshot_tip snapshot);
    suspect = crate.is_suspect s || under_split s floor;
    offered = says_yes v && not (under_split s floor);
    fault = elim fault [ none ↦ none | some e ↦ some (crate.error_text e) ];
    headers_fault = elim fault [ none ↦ false | some e ↦ is_headers_error e ];
  }

  -- One creator's row, replayed and judged.
  unfoldable pub read_row : HeaderSnapshot → Option ℕ → ℕ → TrackedRow Hint Node → CreatorReading
  read_row snapshot floor spend_depth row =
      let replayed = replay crate row (snapshot_headers snapshot) in
      let fault = kept_fault replayed.1 in
      let v = verdict fault replayed.0 (snapshot_headers snapshot) spend_depth in
      reading snapshot floor v.0 v.1 (first_fault fault v.1)

  unfoldable pub load_row : List (TrackedRow Hint Node) → Text → Option (TrackedRow Hint Node)
  load_row [] txid = none
  load_row (r ∷ rows) txid =
      let rest = load_row rows txid in
      if text_eq r.txid (to_ascii_lowercase txid) then some r else rest

  bump_or : Option Text → Option Text → Option Text
  bump_or (some hex) path = some hex
  bump_or none none = none
  bump_or none (some path) = crate.path_hex path

  unfoldable pub with_path : Option Text → TrackedRow Hint Node → TrackedRow Hint Node
  unfolding bump_or
  with_path path row = record row { bump = bump_or row.bump path }

  unfoldable pub row_or_new : Option (TrackedRow Hint Node) → Text → TrackedRow Hint Node
  row_or_new none txid = unbuilt_row crate txid
  row_or_new (some row) txid = row

  -- The tracked row, or the wallet's stored proof as a row's input.
  unfoldable pub creator_row : List (TrackedRow Hint Node) → Creator → TrackedRow Hint Node
  creator_row states c = with_path c.1 (row_or_new (load_row states c.0) c.0)

  unfoldable pub heights_of : List (TrackedRow Hint Node) → List ℕ
  heights_of [] = []
  heights_of (r ∷ rows) = elim (proof_height crate r) [
    | none ↦ heights_of rows
    | some h ↦ h ∷ heights_of rows
  ]

  -- A later row's reading replaces an earlier one's under the same id.
  unfoldable pub insert_readings :
      HeaderSnapshot → Option ℕ → ℕ → List (TrackedRow Hint Node) → Readings → Readings
  insert_readings snapshot floor spend_depth [] readings = readings
  insert_readings snapshot floor spend_depth (r ∷ rows) readings =
      insert_readings snapshot floor spend_depth rows
        ((r.txid, read_row snapshot floor spend_depth r) ∷ readings)

  unfoldable pub read_creators :
      List (TrackedRow Hint Node) → List (Text × ℕ) → HeaderService → ℕ → List Creator → Readings
  read_creators states splits service spend_depth creators =
      let rows = map (creator_row states) creators in
      insert_readings (take_snapshot service (heights_of rows)) (open_split_floor splits)
        spend_depth rows []
