-- ===== src/Tracker/Headers.antt =====
-- `HeaderSnapshot`, `OldBranch` and `NewBranch` of src/tracker_host.rs: what the tracker may read
-- of the chain's headers. A fault of the header service is its text.
use bsv_wallet_cli.Prelude.{
  ℕ, ◌≡◌, Option, none, some, List, [], ◌∷◌, ◌++◌, Result, ok, err, ◌==◌, max, if◌then◌else◌,
  is_some,
}
use bsv_wallet_cli.Prelude.Text.{Text, text_eq, to_ascii_lowercase}

pub record Header : Type 0 where
  pub hash : Text
  pub merkle_root : Text

-- The crate's trait `Headers`.
pub record Headers : Type 0 where
  pub header_at : ℕ → Result Text (Option Header)
  pub tip_height : Result Text ℕ

-- A map from heights, its keys in the order of their insertion.
unfoldable pub get {ℓ} : {A : Type ℓ} → List (ℕ × A) → ℕ → Option A
get [] height = none
get ((h, a) ∷ m) height = let rest = get m height in if h == height then some a else rest

pub record HeaderSnapshot : Type 0 where
  pub tip : Result Text (ℕ × Text)
  pub headers : List (ℕ × Result Text Header)

-- The header service: the tip's height and hash, and a height's header.
pub record HeaderService : Type 0 where
  pub chain_tip : Result Text (ℕ × Text)
  pub header_for_height : ℕ → Result Text Header

lower_tip : Result Text (ℕ × Text) → Result Text (ℕ × Text)
lower_tip (ok (height, hash)) = ok (height, to_ascii_lowercase hash)
lower_tip (err e) = err e

unfoldable pub extend : HeaderService → List ℕ → HeaderSnapshot → HeaderSnapshot
extend service [] snapshot = snapshot
extend service (h ∷ heights) snapshot = extend service heights (
    if is_some (get snapshot.headers h)
    then snapshot
    else record snapshot { headers = snapshot.headers ++ (h, service.header_for_height h) ∷ [] })

unfoldable pub take_snapshot : HeaderService → List ℕ → HeaderSnapshot
unfolding lower_tip
take_snapshot service heights =
    extend service heights (record { tip = lower_tip service.chain_tip; headers = [] })

tip_if : Result Text (ℕ × Text) → Option ℕ
tip_if (ok t) = some t.0
tip_if (err e) = none

unfoldable pub snapshot_tip : HeaderSnapshot → Option ℕ
unfolding tip_if
snapshot_tip s = tip_if s.tip

header_answer : Option (Result Text Header) → Result Text (Option Header)
header_answer none = ok none
header_answer (some (ok header)) = ok (some header)
header_answer (some (err fault)) = err fault

tip_answer : Result Text (ℕ × Text) → Result Text ℕ
tip_answer (ok t) = ok t.0
tip_answer (err fault) = err fault

-- `impl Headers for HeaderSnapshot`.
unfoldable pub snapshot_headers : HeaderSnapshot → Headers
unfolding header_answer tip_answer
snapshot_headers s = record {
  header_at = λ height. header_answer (get s.headers height);
  tip_height = tip_answer s.tip;
}

-- The headers that reorgs took away, by height.
abbrev pub Deactivated : Type 0
Deactivated = List (ℕ × Header)

top_of : ℕ → Deactivated → ℕ
top_of top [] = top
top_of top ((h, header) ∷ gone) = top_of (max top h) gone

old_tip : Deactivated → Result Text ℕ → Result Text ℕ
old_tip gone (ok live) = ok (top_of live gone)
old_tip gone (err fault) = err fault

old_header : Option Header → Result Text (Option Header) → Result Text (Option Header)
old_header none live = live
old_header (some header) live = ok (some header)

unfoldable pub old_branch : Deactivated → Headers → Headers
unfolding old_header old_tip top_of
old_branch gone live = record {
  header_at = λ height. old_header (get gone height) (live.header_at height);
  tip_height = old_tip gone live.tip_height;
}

still_there : Option Header → Option Header → Option Header
still_there none live = live
still_there (some gone) none = none
still_there (some gone) (some h) = if text_eq gone.hash h.hash then none else some h

new_header : Option Header → Result Text (Option Header) → Result Text (Option Header)
new_header away (ok live) = ok (still_there away live)
new_header away (err fault) = err fault

unfoldable pub new_branch : Deactivated → Headers → Headers
unfolding new_header still_there
new_branch gone live = record {
  header_at = λ height. new_header (get gone height) (live.header_at height);
  tip_height = live.tip_height;
}

tip_of_answer : (r : Result Text (ℕ × Text)) (tip : ℕ) → tip_answer r ≡ ok tip → tip_if r ≡ some tip
unfolding tip_if tip_answer
tip_of_answer (ok t) tip h = cc
tip_of_answer (err e) tip h = cc

-- The tip that the tracker reads is the one that the reading's depth is counted from.
pub snapshot_tip-tip_height :
    (s : HeaderSnapshot) (tip : ℕ)
    → (snapshot_headers s).tip_height ≡ ok tip
    → snapshot_tip s ≡ some tip
unfolding snapshot_tip snapshot_headers
snapshot_tip-tip_height s tip h = tip_of_answer s.tip tip h
