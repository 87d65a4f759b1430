-- ===== src/SpendGate/Store/Rows.antt =====
-- What the joins and tests of the query on coins say of the tables' rows.
use mathlib.Core.List.{Memᴰ}
use bsv_wallet_cli.Prelude.{
  ℕ, ◌≡◌, refl, sym, ap, ◌↔◌, ◌⊎◌, Option, none, some, true, false, ◌&&◌, List, [], ◌∷◌, arith,
  is_some, Bool-cases, Option-cases, inl, inr, any, subst, Bool, if◌then◌else◌, ◌==◌, ==_iff,
}
use bsv_wallet_cli.Prelude.Text.{Text, codes, text_eq, text_eq_iff, text_eq_refl}
use bsv_wallet_cli.SpendGate.Hold.{TxStatus, completed, unproven, made, received_payment}
use bsv_wallet_cli.SpendGate.Store.{
  Store, OutputRow, TransactionRow, transaction_of, in_default_basket, is_spendable_status,
  is_frozen, origin_of, BasketRow, find, names_default,
}

is_coin_iff :
    (txid t : Text) (vout v : ℕ)
    → ((text_eq t txid && (v == vout)) ≡ true) ↔ (◌≡◌ {A = Text × ℕ} (txid, vout) (t, v))
is_coin_iff txid t vout v = (
  λ h.
      let e : t ≡ txid = (text_eq_iff t txid).0 (ground arith) in
      let f : v ≡ vout = (==_iff v vout).0 (ground arith) in rw (e, f) refl,
  λ h.
      let e : t ≡ txid = ap (λ (p : Text × ℕ). p.0) (sym h) in
      let f : v ≡ vout = ap (λ (p : Text × ℕ). p.1) (sym h) in
      rw (e, f, text_eq_refl txid) ((==_iff vout vout).1 refl),
)

among-Mem :
    (txid : Text) (vout : ℕ) (fs : List (Text × ℕ))
    → any (λ ((t, v) : Text × ℕ). text_eq t txid && (v == vout)) fs ≡ true
    → Memᴰ (txid, vout) fs
among-Mem txid vout [] h = absurd (cc)
among-Mem txid vout ((t, v) ∷ fs) h = elim (Bool-cases (text_eq t txid && (v == vout))) [
  | inl y ↦ Memᴰ.head ((is_coin_iff txid t vout v).0 y)
  | inr n ↦ Memᴰ.tail (among-Mem txid vout fs (rw n at h))
]

Mem-among :
    (txid : Text) (vout : ℕ) (fs : List (Text × ℕ))
    → Memᴰ (txid, vout) fs
    → any (λ ((t, v) : Text × ℕ). text_eq t txid && (v == vout)) fs ≡ true
Mem-among txid vout [] m = elim m [ ]
Mem-among txid vout ((t, v) ∷ fs) (Memᴰ.head e) = rw ((is_coin_iff txid t vout v).1 e) refl
Mem-among txid vout ((t, v) ∷ fs) (Memᴰ.tail m) = rw (Mem-among txid vout fs m) (ground arith)

among_iff :
    (txid : Text) (vout : ℕ) (fs : List (Text × ℕ))
    → (any (λ ((t, v) : Text × ℕ). text_eq t txid && (v == vout)) fs ≡ true) ↔ Memᴰ (txid, vout) fs
among_iff txid vout fs = (among-Mem txid vout fs, Mem-among txid vout fs)

pub is_frozen_iff :
    (st : Store) (txid : Text) (vout : ℕ)
    → (is_frozen st txid vout ≡ true) ↔ Memᴰ (txid, vout) st.frozen_outpoints
unfolding is_frozen
is_frozen_iff st txid vout = among_iff txid vout st.frozen_outpoints

module _ {A : Type 0} (p : A → Bool) where
  find_lem : (xs : List A) {x : A} → find p xs ≡ some x → Memᴰ x xs × (p x ≡ true)
  unfolding find
  find_lem [] h = absurd (cc)
  find_lem (y ∷ xs) {x} h = elim (Bool-cases (p y)) [
    | inl t ↦
        let e : y ≡ x = cc (rw (t, find) at h) in (Memᴰ.head (sym e), subst (λ z. p z ≡ true) e t)
    | inr n ↦ let (m, t) = find_lem xs (rw (n, find) at h) in (Memᴰ.tail m, t)
  ]

pub joined_by :
    (st : Store) (id : ℕ) {t : TransactionRow}
    → transaction_of st id ≡ some t
    → Memᴰ t st.transactions × (t.transaction_id ≡ id)
unfolding transaction_of
joined_by st id {t} h =
    let (m, e) = find_lem (λ (t : TransactionRow). t.transaction_id == id) st.transactions h in
    (m, (==_iff t.transaction_id id).0 e)

default_found :
    (st : Store) (id : ℕ)
    → names_default (find (λ (b : BasketRow). b.basket_id == id) st.baskets) ≡ true
    → (b : BasketRow) × (some id ≡ some b.basket_id)
      × Memᴰ b st.baskets
      × (b.name ≡ codes "default")
default_found st id h =
    elim (Option-cases (find (λ (b : BasketRow). b.basket_id == id) st.baskets)) [
      | inl n ↦ absurd (cc (rw n at h))
      | inr (b, e) ↦
          let (m, i) = find_lem (λ (b : BasketRow). b.basket_id == id) st.baskets e in
          (
            b,
            ap some (sym ((==_iff b.basket_id id).0 i)),
            m,
            (text_eq_iff b.name (codes "default")).0 (rw e at h),
          )
    ]

default_if :
    (st : Store) (o : OutputRow) (id : Option ℕ)
    → o.basket_id ≡ id
    → in_default_basket st o ≡ true
    → (b : BasketRow) × (id ≡ some b.basket_id) × Memᴰ b st.baskets × (b.name ≡ codes "default")
unfolding in_default_basket
default_if st o none e h = absurd (cc (rw e at h))
default_if st o (some id) e h = default_found st id (rw e at h)

pub default_of :
    (st : Store) (o : OutputRow)
    → in_default_basket st o ≡ true
    → (b : BasketRow) × (o.basket_id ≡ some b.basket_id)
      × Memᴰ b st.baskets
      × (b.name ≡ codes "default")
default_of st o h = default_if st o o.basket_id refl h

pub origin_lem : (b : Bool) → origin_of b ≡ (if b then made else received_payment)
origin_lem true = refl
origin_lem false = refl

pub not_some : {A : Type 0} (o : Option A) → is_some o ≡ false → o ≡ none
not_some none h = refl
not_some (some a) h = cc

pub status-cases : (s : TxStatus) → is_spendable_status s ≡ true → (s ≡ completed) ⊎ (s ≡ unproven)
unfolding is_spendable_status
status-cases s h = ground arith
