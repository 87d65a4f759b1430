-- ===== src/Reconcile/Roots.antt =====
-- From which transactions a pass may start a retire.
use mathlib.Core.List.{Memᴰ}
use bsv_wallet_cli.Prelude.{
  ℕ, suc, ◌≡◌, ◌≢◌, refl, subst, Bool, true, not, List, [], ◌∷◌, ◌++◌, arith, any, select, inl, inr,
  Bool-cases, All, All-map, All-concat,
}
use bsv_wallet_cli.Prelude.Text.{Text, text_eq, text_eq_iff}
use bsv_wallet_cli.Guard.Retire.{is_one_of}
use bsv_wallet_cli.BroadcastVerify.Indexes.{
  ChainIndexAnswer, index_present, index_absent, index_unknown,
}
use bsv_wallet_cli.BroadcastVerify.Probe.{NetworkEvidence}
use bsv_wallet_cli.BroadcastVerify.Rounds.{PresenceReport}
use bsv_wallet_cli.Reconcile.Tables.{
  Tables, SeenRecord, Candidate, status_rejected, has_status, needs_probe, select_candidates,
  sweep_roots,
}
use bsv_wallet_cli.Reconcile.Retire.{Toolbox}
use bsv_wallet_cli.Reconcile.Pass.{
  Probe, chain_probe, fatal_probe, absent_probe, held_probe, inconclusive_probe, classify,
  off_chain, by_index, ReconcileOptions, Listed, list_candidate, list_candidates, records_for,
  add_roots, act_on, Probed, probe_one, probe_all, probe_pass,
}

-- The memory had a rejected row of the transaction before the probes, or its report says that a
-- broadcaster called it fatal and is on no index, or after the probes it had failed and an
-- unresolved transaction spent an output of it.
pub data IsRoot (before after : Tables) (verify : ℕ → Text → PresenceReport) (origin : Text)
    : Type 0 where
  by_word :
      (m : SeenRecord)
      → Memᴰ m before.memory
      → m.txid ≡ origin
      → has_status status_rejected m.ladder_status ≡ true
      → IsRoot before after verify origin
  by_report :
      (n : ℕ)
      → ((i : NetworkEvidence) → (verify n origin).chain_index ≢ index_present i)
      → (verify n origin).broadcaster_fatal ≡ true
      → IsRoot before after verify origin
  by_failed : Memᴰ origin (sweep_roots after) → IsRoot before after verify origin

off_chain-fatal : (r : PresenceReport) → off_chain r ≡ fatal_probe → r.broadcaster_fatal ≡ true
unfolding off_chain
off_chain-fatal r h = ground arith

module _ {A : Type 0} (f g : A → Bool) where
  any-select :
      (xs : List A) → any f (select g xs) ≡ true → (x : A) × Memᴰ x xs × (g x ≡ true) × (f x ≡ true)
  any-select [] h = absurd (cc)
  any-select (y ∷ xs) h = elim (Bool-cases (g y)) [
    | inr n ↦ let (x, m, a, b) = any-select xs (rw n at h) in (x, Memᴰ.tail m, a, b)
    | inl t ↦ elim (Bool-cases (f y)) [
      | inl u ↦ (y, Memᴰ.head refl, t, u)
      | inr u ↦ let (x, m, a, b) = any-select xs (rw u at (rw t at h)) in (x, Memᴰ.tail m, a, b)
    ]
  ]

All-Memᴰ : {A : Type 0} (xs : List A) → All (λ x. Memᴰ x xs) xs
All-Memᴰ [] = tt
All-Memᴰ (x ∷ xs) = (
  Memᴰ.head refl,
  All-map (λ y. Memᴰ y xs) (λ y. Memᴰ y (x ∷ xs)) (λ y m. Memᴰ.tail m) xs (All-Memᴰ xs),
)

add_roots-All :
    (P : Text → Type 0) (roots ts : List Text) → All P roots → All P ts → All P (add_roots roots ts)
unfolding add_roots
add_roots-All P roots [] h k = h
add_roots-All P roots (t ∷ ts) h k = elim (Bool-cases (is_one_of roots t)) [
  | inl y ↦ simp y (add_roots-All P roots ts h k.1)
  | inr n ↦ simp n (add_roots-All P (roots ++ t ∷ []) ts (All-concat P roots h k.0) k.1)
]

module _ (P : Text → Type 0) (stale absence : ℕ) (records : List SeenRecord)
    (word : (m : SeenRecord)
      → Memᴰ m records
      → has_status status_rejected m.ladder_status ≡ true
      → P m.txid) where
  list_candidate-All :
      (c : Candidate) (l : Listed) → All P l.2 → All P (list_candidate stale absence records c l).2
  unfolding list_candidate records_for
  list_candidate-All c (r, probes, roots) h =
      let rejected = λ (m : SeenRecord). has_status status_rejected m.ladder_status in
      let mine = λ (m : SeenRecord). text_eq m.txid c.txid in
      elim (Bool-cases (any rejected (select mine records))) [
        | inl y ↦
            let (m, i, a, b) = any-select rejected mine records y in
            let p : P c.txid = subst P ((text_eq_iff m.txid c.txid).0 a) (word m i b) in
            simp y (All-concat P roots h p)
        | inr n ↦
            simp n
              (elim (Bool-cases
                (not (needs_probe stale c.age_minutes absence (select mine records)))) [
                  | inl y ↦ simp y h
                  | inr k ↦ simp k h
                ])
      ]

  pub list_candidates-All :
      (cs : List Candidate) (l : Listed)
      → All P l.2
      → All P (list_candidates stale absence records cs l).2
  unfolding list_candidates
  list_candidates-All [] l h = h
  list_candidates-All (c ∷ cs) l h = list_candidates-All cs _ (list_candidate-All c l h)

module _ {World Locked : Type 0} (toolbox : Toolbox World Locked)
    (verify : ℕ → Text → PresenceReport) (opts : ReconcileOptions) where
  module _ (P : Text → Type 0)
      (fatal : (n : ℕ) (txid : Text) → classify (verify n txid) ≡ fatal_probe → P txid) where
    act_on-All :
        (n : ℕ) (txid : Text) (p : Probe) (age : ℕ) (s : Probed toolbox verify opts)
        → classify (verify n txid) ≡ p
        → All P s.2
        → All P (act_on toolbox verify opts p txid age s).2
    unfolding act_on
    act_on-All n txid (chain_probe e) age (w, r, roots) c h = h
    act_on-All n txid fatal_probe age (w, r, roots) c h = All-concat P roots h (fatal n txid c)
    act_on-All n txid absent_probe age (w, r, roots) c h = h
    act_on-All n txid held_probe age (w, r, roots) c h = h
    act_on-All n txid inconclusive_probe age (w, r, roots) c h = h

    probe_all-All :
        (n : ℕ) (ts : List (Text × ℕ)) (s : Probed toolbox verify opts)
        → All P s.2
        → All P (probe_all toolbox verify opts n ts s).2
    unfolding probe_all probe_one
    probe_all-All n [] s h = h
    probe_all-All n (t ∷ ts) s h =
        probe_all-All (suc n) ts _ (act_on-All n t.0 (classify (verify n t.0)) t.1 _ refl h)

  by_index-fatal :
      (i : ChainIndexAnswer) (r : PresenceReport)
      → by_index i r ≡ fatal_probe
      → ((j : NetworkEvidence) → i ≢ index_present j) × (r.broadcaster_fatal ≡ true)
  unfolding by_index
  by_index-fatal (index_present x) r h = absurd (cc)
  by_index-fatal index_absent r h = (λ j e. cc, off_chain-fatal r h)
  by_index-fatal index_unknown r h = (λ j e. cc, off_chain-fatal r h)

  -- The roots from which a pass on this store goes on to retire.
  pub roots-All :
      (stale : ℕ) (w : World) (after : Tables)
      → All
          (IsRoot (toolbox.tables w) after verify)
          (add_roots (probe_pass toolbox verify opts stale w).2 (sweep_roots after))
  unfolding probe_pass classify
  roots-All stale w after =
      let P = IsRoot (toolbox.tables w) after verify in
      add_roots-All P _ (sweep_roots after)
        (probe_all-All P
          (λ n txid c.
            let (o, f) = by_index-fatal (verify n txid).chain_index (verify n txid) c in
            by_report n o f)
          0 _ _
          (list_candidates-All P stale opts.absence_minutes (toolbox.tables w).memory
            (λ m i b. by_word m i refl b) (select_candidates (toolbox.tables w) opts.max_age_hours)
            _ tt))
        (All-map (λ t. Memᴰ t (sweep_roots after)) P (λ t m. by_failed m) (sweep_roots after)
          (All-Memᴰ (sweep_roots after)))
