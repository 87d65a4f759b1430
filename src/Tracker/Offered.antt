-- ===== src/Tracker/Offered.antt =====
-- What stands behind a reading that the guard offers.
use bsv_wallet_cli.Prelude.{
  ℕ, max, ◌≡◌, refl, ◌≤◌, Option, none, some, Bool, true, false, ◌&&◌, not, Result, ok, err, arith,
}
use bsv_wallet_cli.Prelude.Text.{Text}
use bsv_wallet_cli.SpendGate.Hold.{CreatorReading, Word, mined}
use bsv_wallet_cli.Tracker.Headers.{
  Headers, HeaderSnapshot, snapshot_tip, snapshot_headers, snapshot_tip-tip_height,
}
use bsv_wallet_cli.Tracker.Rows.{CheckError, spend_attempt, recheck, Machine, TrackedRow, replay}
use bsv_wallet_cli.Tracker.Creators.{
  default_spend_depth, is_mined, kept_fault, tracks_mined, stepped, readme_spend_guard, depth_under,
  is_deep, deep_if, deep_enough, depth_of, and_deep, verdict, first_fault, says_yes, reading,
  read_row,
}

mined_of : (w : Word) → is_mined w ≡ true → w ≡ mined
unfolding is_mined
mined_of w h = ground arith

module _ {State Hint Proof Event Node : Type 0} (crate : Machine State Hint Proof Event Node) where
  -- The state is of a mined transaction that nothing marks, deep enough under the tip.
  abbrev IsMined : State → Type 0
  IsMined s = (crate.word s ≡ mined) × (crate.is_suspect s ≡ false)

  abbrev IsDeep : Headers → ℕ → State → Type 0
  IsDeep headers spend_depth s =
      (height : ℕ) × (tip : ℕ) × (crate.height s ≡ some height)
      × (headers.tip_height ≡ ok tip)
      × (max spend_depth default_spend_depth ≤ depth_under crate tip height)

  no_answer : says_yes crate (ok false) ≡ true → ⊥
  unfolding says_yes
  no_answer h = cc

  no_fault :
      (v : Result CheckError Bool) → says_yes crate v ≡ true → first_fault crate none v ≡ none
  unfolding says_yes first_fault
  no_fault (ok b) h = refl
  no_fault (err e) h = cc

  stepped-yes :
      (P : State → Type 0) (p : State × Option CheckError)
      (next : State → State × Result CheckError Bool)
      → ((s : State) → says_yes crate (next s).1 ≡ true → P (next s).0)
      → says_yes crate (stepped crate p next).1 ≡ true
      → P (stepped crate p next).0
  unfolding stepped says_yes
  stepped-yes P (s, none) next h y = h s y
  stepped-yes P (s, some e) next h y = cc

  guard_parts :
      (s : State)
      → says_yes crate (ok (tracks_mined crate s && not (crate.is_suspect s))) ≡ true
      → IsMined s
  unfolding says_yes tracks_mined
  guard_parts s y = (mined_of (crate.word s) (ground arith), ground arith)

  guard-IsMined :
      (headers : Headers) (s : State)
      → says_yes crate (readme_spend_guard crate headers s).1 ≡ true
      → IsMined (readme_spend_guard crate headers s).0
  unfolding readme_spend_guard
  guard-IsMined headers s =
      stepped-yes IsMined (crate.step headers spend_attempt s) _
        λ s1. stepped-yes IsMined (crate.step headers recheck s1) _ λ s2 y. guard_parts s2 y

  IsDeep-of :
      (headers : Headers) (spend_depth height : ℕ) (s : State) (t : Result Text ℕ)
      → crate.height s ≡ some height
      → headers.tip_height ≡ t
      → says_yes crate (is_deep crate spend_depth height t) ≡ true
      → IsDeep headers spend_depth s
  unfolding is_deep says_yes
  IsDeep-of headers spend_depth height s (ok tip) h e y = (height, tip, h, e, ground arith)
  IsDeep-of headers spend_depth height s (err x) h e y = cc

  deep_if-IsDeep :
      (s : State) (o : Option ℕ) (headers : Headers) (spend_depth : ℕ)
      → crate.height s ≡ o
      → says_yes crate (deep_if crate o headers spend_depth) ≡ true
      → IsDeep headers spend_depth s
  unfolding deep_if
  deep_if-IsDeep s none headers spend_depth e y = elim (no_answer y) [ ]
  deep_if-IsDeep s (some height) headers spend_depth e y =
      IsDeep-of headers spend_depth height s headers.tip_height e refl y

  and_deep-yes :
      (p : State × Result CheckError Bool) (headers : Headers) (spend_depth : ℕ)
      → (says_yes crate p.1 ≡ true → IsMined p.0)
      → says_yes crate (and_deep crate p headers spend_depth).1 ≡ true
      → IsMined (and_deep crate p headers spend_depth).0
        × IsDeep headers spend_depth (and_deep crate p headers spend_depth).0
  unfolding and_deep says_yes
  and_deep-yes (s, ok true) headers spend_depth h y =
      (h refl, deep_if-IsDeep s (crate.height s) headers spend_depth refl (unfold deep_enough in y))
  and_deep-yes (s, ok false) headers spend_depth h y = cc
  and_deep-yes (s, err e) headers spend_depth h y = cc

  verdict-yes :
      (fault : Option CheckError) (s : State) (headers : Headers) (spend_depth : ℕ)
      → says_yes crate (verdict crate fault s headers spend_depth).1 ≡ true
      → (first_fault crate fault (verdict crate fault s headers spend_depth).1 ≡ none)
        × IsMined (verdict crate fault s headers spend_depth).0
        × IsDeep headers spend_depth (verdict crate fault s headers spend_depth).0
  unfolding verdict
  verdict-yes (some fault) s headers spend_depth y = elim (no_answer y) [ ]
  verdict-yes none s headers spend_depth y =
      let (m, d) =
        and_deep-yes (readme_spend_guard crate headers s) headers spend_depth
          (guard-IsMined headers s) y in
      (no_fault (and_deep crate (readme_spend_guard crate headers s) headers spend_depth).1 y, m, d)

  Reads : CreatorReading → ℕ → Type 0
  Reads r spend_depth =
      (r.word ≡ mined)
      × (r.suspect ≡ false)
      × (r.fault ≡ none)
      × (max spend_depth default_spend_depth ≤ r.depth)

  depth_of-deep :
      (snapshot : HeaderSnapshot) (spend_depth : ℕ) (s : State)
      → IsDeep (snapshot_headers snapshot) spend_depth s
      → max spend_depth default_spend_depth
        ≤ depth_of crate (crate.height s) (snapshot_tip snapshot)
  unfolding depth_of
  depth_of-deep snapshot spend_depth s (height, tip, h, t, l) =
      rw h (rw (snapshot_tip-tip_height snapshot tip t) l)

  reading-yes :
      (snapshot : HeaderSnapshot) (floor : Option ℕ) (s : State) (v : Result CheckError Bool)
      (fault : Option CheckError)
      → (reading crate snapshot floor s v fault).offered ≡ true
      → says_yes crate v ≡ true
  unfolding reading
  reading-yes snapshot floor s v fault h = ground arith

  reading-Reads :
      (snapshot : HeaderSnapshot) (floor : Option ℕ) (spend_depth : ℕ) (s : State)
      (v : Result CheckError Bool) (fault : Option CheckError)
      → (reading crate snapshot floor s v fault).offered ≡ true
      → fault ≡ none
      → IsMined s
      → IsDeep (snapshot_headers snapshot) spend_depth s
      → Reads (reading crate snapshot floor s v fault) spend_depth
  unfolding reading Reads
  reading-Reads snapshot floor spend_depth s v none y f m d =
      (m.0, ground (arith, m.1), refl, depth_of-deep snapshot spend_depth s d)
  reading-Reads snapshot floor spend_depth s v (some e) y f m d = cc

  -- A reading is offered only if the tracker's word is mined, no fork or open split marks it, no
  -- fault was met, and its block is as deep under the tip that was read as the spend depth asks,
  -- which is one at the least; the depth that the reading names is that depth.
  pub read_row-offered :
      (snapshot : HeaderSnapshot) (floor : Option ℕ) (spend_depth : ℕ) (row : TrackedRow Hint Node)
      → (read_row crate snapshot floor spend_depth row).offered ≡ true
      → ((read_row crate snapshot floor spend_depth row).word ≡ mined)
        × ((read_row crate snapshot floor spend_depth row).suspect ≡ false)
        × ((read_row crate snapshot floor spend_depth row).fault ≡ none)
        × (max spend_depth default_spend_depth
            ≤ (read_row crate snapshot floor spend_depth row).depth)
  unfolding read_row
  read_row-offered snapshot floor spend_depth row h =
      let replayed = replay crate row (snapshot_headers snapshot) in
      let fault = kept_fault replayed.1 in
      let v = verdict crate fault replayed.0 (snapshot_headers snapshot) spend_depth in
      let (f, m, d) =
        verdict-yes fault replayed.0 (snapshot_headers snapshot) spend_depth
          (reading-yes snapshot floor v.0 v.1 (first_fault crate fault v.1) h) in
      unfold Reads in
      reading-Reads snapshot floor spend_depth v.0 v.1 (first_fault crate fault v.1) h f m d
