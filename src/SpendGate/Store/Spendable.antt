-- ===== src/SpendGate/Store/Spendable.antt =====
-- What the query of `candidates` promises of each coin it returns.
use mathlib.Core.List.{Memᴰ}
use bsv_wallet_cli.Prelude.{
  ◌≡◌, refl, ◌↔◌, ◌⊎◌, Option, none, some, true, ◌&&◌, not, List, [], ◌∷◌, arith, is_some, All,
  Bool-cases, inl, inr, if◌then◌else◌,
}
use bsv_wallet_cli.Prelude.Text.{Text, codes, to_ascii_lowercase}
use bsv_wallet_cli.SpendGate.Hold.{completed, unproven, made, received_payment}
use bsv_wallet_cli.SpendGate.Store.{
  Store, OutputRow, TransactionRow, Candidate, Ranked, transaction_of, in_default_basket,
  is_spendable_status, or_zero, BasketRow, age_of, proof_of, candidate_of, candidate?,
  with_transaction, with_txid, insert_ranked, before, add_ranked, rank, coins_of, candidates,
}
use bsv_wallet_cli.SpendGate.Store.Rows.{
  is_frozen_iff, joined_by, default_of, origin_lem, not_some, status-cases,
}

-- A coin that the toolbox could allocate: a row of the outputs, change of the default basket, that
-- nothing spent, its transaction completed or unproven. The coin has the row's id, index and value,
-- its transaction's id in lower case, its origin and its proof; and it is frozen exactly if the
-- frozen record names that id and index.
pub record IsSpendable (st : Store) (c : Candidate) : Type 0 where
  pub row : OutputRow
  pub listed : Memᴰ row st.outputs
  pub transaction : TransactionRow
  pub found : transaction_of st row.transaction_id ≡ some transaction
  pub joined : Memᴰ transaction st.transactions × (transaction.transaction_id ≡ row.transaction_id)
  pub txid : Text
  pub sent : transaction.txid ≡ some txid
  pub id : c.output_id ≡ row.output_id
  pub outpoint : (c.txid ≡ to_ascii_lowercase txid) × (c.vout ≡ row.vout)
  pub value : c.satoshis ≡ or_zero row.satoshis
  pub origin : c.origin ≡ (if transaction.is_outgoing then made else received_payment)
  pub age : c.age_minutes ≡ age_of row.age
  pub proof : c.proof ≡ proof_of st txid
  pub change : row.change ≡ true
  pub unspent : row.spent_by ≡ none
  pub status : (transaction.status ≡ completed) ⊎ (transaction.status ≡ unproven)
  pub basket : BasketRow
  pub basketed : (row.basket_id ≡ some basket.basket_id) × Memᴰ basket st.baskets
  pub default_basket : basket.name ≡ codes "default"
  pub thaw : (c.frozen ≡ true) ↔ Memᴰ (to_ascii_lowercase txid, row.vout) st.frozen_outpoints

module _ (st : Store) where
  abbrev IsFit : Ranked → Type 0
  IsFit r = IsSpendable st r.coin

  abbrev AllFit : Option Ranked → Type 0
  AllFit none = Unit
  AllFit (some r) = IsFit r

  with_txid-fit :
      (o : OutputRow) (t : TransactionRow) (txid : Option Text)
      → Memᴰ o st.outputs
      → transaction_of st o.transaction_id ≡ some t
      → t.txid ≡ txid
      → AllFit (with_txid st o t txid)
  unfolding with_txid candidate_of
  with_txid-fit o t none m f e = tt
  with_txid-fit o t (some txid) m f e =
      elim (Bool-cases (
        o.change
        && (not (is_some o.spent_by))
        && is_spendable_status t.status
        && in_default_basket st o)) [
          | inl y ↦
              let b = default_of st o (ground arith) in
              simp y (record {
                row = o;
                listed = m;
                transaction = t;
                found = f;
                joined = joined_by st o.transaction_id f;
                txid = txid;
                sent = e;
                id = refl;
                outpoint = (refl, refl);
                value = refl;
                origin = origin_lem t.is_outgoing;
                age = refl;
                proof = refl;
                change = ground arith;
                unspent = not_some o.spent_by (ground arith);
                status = status-cases t.status (ground arith);
                basket = b.0;
                basketed = (b.1, b.2);
                default_basket = b.3;
                thaw = is_frozen_iff st (to_ascii_lowercase txid) o.vout;
              })
          | inr n ↦ simp n tt
        ]

  with_transaction-fit :
      (o : OutputRow) (t : Option TransactionRow)
      → Memᴰ o st.outputs
      → transaction_of st o.transaction_id ≡ t
      → AllFit (with_transaction st o t)
  unfolding with_transaction
  with_transaction-fit o none m f = tt
  with_transaction-fit o (some t) m f = with_txid-fit o t t.txid m f refl

  insert_ranked-IsFit :
      (r : Ranked) (rs : List Ranked) → IsFit r → All IsFit rs → All IsFit (insert_ranked r rs)
  unfolding insert_ranked
  insert_ranked-IsFit r [] h hs = (h, tt)
  insert_ranked-IsFit r (q ∷ qs) h hs = elim (Bool-cases (before q r)) [
    | inl y ↦ simp y (hs.0, insert_ranked-IsFit r qs h hs.1)
    | inr n ↦ simp n (h, hs)
  ]

  add_ranked-IsFit :
      (r : Option Ranked) (rs : List Ranked) → AllFit r → All IsFit rs → All IsFit (add_ranked r rs)
  unfolding add_ranked
  add_ranked-IsFit none rs h hs = hs
  add_ranked-IsFit (some r) rs h hs = insert_ranked-IsFit r rs h hs

  rank-IsFit :
      (os : List OutputRow)
      → ((o : OutputRow) → Memᴰ o os → Memᴰ o st.outputs)
      → All IsFit (rank st os)
  unfolding rank candidate?
  rank-IsFit [] up = tt
  rank-IsFit (o ∷ os) up =
      add_ranked-IsFit (candidate? st o) (rank st os)
        (with_transaction-fit o (transaction_of st o.transaction_id) (up o (Memᴰ.head refl)) refl)
        (rank-IsFit os (λ p m. up p (Memᴰ.tail m)))

  coins_of-fit : (rs : List Ranked) → All IsFit rs → All (IsSpendable st) (coins_of rs)
  unfolding coins_of
  coins_of-fit [] h = tt
  coins_of-fit (r ∷ rs) h = (h.0, coins_of-fit rs h.1)

  -- Each candidate is a coin of the store that the toolbox could allocate: it has the id, the
  -- index and the value of an output that is change of the default basket and that nothing spent,
  -- the id of that output's transaction, which is completed or unproven, in lower case, its origin
  -- and its proof; and it is frozen exactly if the frozen record names that id and index.
  pub candidates-IsSpendable : All (IsSpendable st) (candidates st)
  unfolding candidates
  candidates-IsSpendable = coins_of-fit (rank st st.outputs) (rank-IsFit st.outputs (λ o m. m))
