-- ===== src/Transactions/References.antt =====
-- The loop over the txids that only the block has: its rows, and the transactions that they refer to.
use miningpool_observer.Prelude.{
  any, ◌==◌, ◌&&◌, ◌||◌, ◌≡◌, refl, Bool, true, false, none, some, List, [], ◌∷◌, map, reverse,
  lookup, is_some, All, ℤ, list_eq, nat_eq, if◌then◌else◌, Option-cases, inl, inr, arith, beq_refl,
}
use miningpool_observer.Bitcoin.{Bytes, Text, Txid, Libraries}
use miningpool_observer.Model.{TxInfo, Transaction, TransactionOnlyInBlock}
use miningpool_observer.Sanctions.{UtxoMap}
use miningpool_observer.Transactions.{
  Transactions, add_to_transactions, add_built, build_transaction, build_transactions_only_in_block,
}
use miningpool_observer.Transactions.Merge.{is_some-lookup-add}

-- The map has a transaction under this txid.
abbrev pub Has : Transactions → Bytes → Type 0
Has m k = is_some (lookup k m) ≡ true

-- Every txid of the one map is in the other.
abbrev pub Keeps : Transactions → Transactions → Type 0
Keeps m m' = (k : Bytes) → Has m k → Has m' k

-- These are the infos of the txids, in order.
abbrev pub Found : List Txid → List (Txid × TxInfo) → List TxInfo → Type 0
Found [] infos [] = Unit
Found [] infos (i ∷ is) = ⊥
Found (txid ∷ txids) infos [] = ⊥
Found (txid ∷ txids) infos (i ∷ is) = (lookup txid infos ≡ some i) × Found txids infos is

module _ (lib : Libraries) (utxos : UtxoMap) (addresses : List Text) where
  open lib use {raw_tx_info}

  pub Keeps-add : (new : Transaction) (m : Transactions) → Keeps m (add_to_transactions new m)
  Keeps-add new m k h = ground (arith, is_some-lookup-add k new m)

  pub Keeps-add_built :
      (k : Bytes) (info : TxInfo) (c : Bool) (m : Transactions)
      → Keeps m (add_built lib utxos addresses k info c m)
  unfolding add_built
  Keeps-add_built k info c m j h =
      elim (Option-cases (build_transaction lib utxos addresses k info c)) [
        | inl e ↦ ground arith
        | inr (t, e) ↦ ground (arith, is_some-lookup-add j t m)
      ]

  -- A transaction is built exactly where there is a `RawTxInfo`, under the given txid.
  pub txid-build_transaction :
      (k : Bytes) (info : TxInfo) (c : Bool)
      → elim (build_transaction lib utxos addresses k info c) [ none ↦ none | some t ↦ some t.txid ]
        ≡ (if is_some (raw_tx_info info.tx) then some k else none)
  unfolding build_transaction
  txid-build_transaction k info c = elim (Option-cases (raw_tx_info info.tx)) [
    | inl e ↦ ground arith
    | inr (raw, e) ↦ ground arith
  ]

  pub Has-add_built :
      (k : Bytes) (info : TxInfo) (c : Bool) (m : Transactions)
      → is_some (raw_tx_info info.tx) ≡ true
      → Has (add_built lib utxos addresses k info c m) k
  unfolding add_built
  Has-add_built k info c m h =
      elim (Option-cases (build_transaction lib utxos addresses k info c)) [
        | inl e ↦ ground (arith, txid-build_transaction k info c)
        | inr (t, e) ↦
            ground (arith, txid-build_transaction k info c, is_some-lookup-add k t m, beq_refl k)
      ]

  is_some-lookup-add_built :
      (k key : Bytes) (info : TxInfo) (c : Bool) (m : Transactions)
      → is_some (lookup k (add_built lib utxos addresses key info c m))
        ≡ ((k == key) && is_some (raw_tx_info info.tx)) || is_some (lookup k m)
  unfolding add_built
  is_some-lookup-add_built k key info c m =
      elim (Option-cases (build_transaction lib utxos addresses key info c)) [
        | inl e ↦ ground (arith, txid-build_transaction key info c)
        | inr (t, e) ↦ ground (arith, txid-build_transaction key info c, is_some-lookup-add k t m)
      ]

  -- The loop adds a transaction under this key.
  abbrev pub adds : Bytes → TxInfo → Bool
  adds k info = (k == reverse info.txid) && is_some (raw_tx_info info.tx)

  -- The transaction can be built.
  abbrev pub IsBuildable : TxInfo → Type 0
  IsBuildable info = is_some (raw_tx_info info.tx) ≡ true

  module _ (block_id : ℤ) where
    abbrev pub block_row : TxInfo → TransactionOnlyInBlock
    block_row info = record {
      block_id = block_id;
      position = info.position;
      transaction_txid = reverse info.txid;
    }

    only_in_block-cons :
        (txid : Txid) (txids : List Txid) (infos : List (Txid × TxInfo)) (m m' : Transactions)
        (info : TxInfo) (rows : List TransactionOnlyInBlock)
        → lookup txid infos ≡ some info
        → build_transactions_only_in_block lib utxos addresses block_id txids infos
            (add_built lib utxos addresses (reverse info.txid) info false m)
          ≡ some (rows, m')
        → build_transactions_only_in_block lib utxos addresses block_id (txid ∷ txids) infos m
          ≡ some (block_row info ∷ rows, m')
    unfolding build_transactions_only_in_block
    only_in_block-cons txid txids infos m m' info rows a r = ground arith

    -- If every txid of the set is in the map and every transaction can be built, then there is no
    -- panic, there is one row for each txid, with the position of its transaction, and each row's
    -- txid is in the map of transactions, which keeps all that it had.
    pub build_transactions_only_in_block-Has :
        (txids : List Txid) (infos : List (Txid × TxInfo)) (m : Transactions) (found : List TxInfo)
        → Found txids infos found
        → All IsBuildable found
        → (m' : Transactions) × (build_transactions_only_in_block lib utxos addresses block_id txids
              infos m
            ≡ some (map block_row found, m'))
          × All (λ info. Has m' (reverse info.txid)) found
          × Keeps m m'
    unfolding build_transactions_only_in_block
    build_transactions_only_in_block-Has [] infos m [] h b = (m, refl, tt, λ k p. p)
    build_transactions_only_in_block-Has [] infos m (i ∷ is) h b = absurd h
    build_transactions_only_in_block-Has (txid ∷ txids) infos m [] h b = absurd h
    build_transactions_only_in_block-Has (txid ∷ txids) infos m (info ∷ found) h b =
        let added = add_built lib utxos addresses (reverse info.txid) info false m in
        let (m', run, has, keeps) =
          build_transactions_only_in_block-Has txids infos added found h.1 b.1 in
        (
          m',
          only_in_block-cons txid txids infos m m' info (map block_row found) h.0 run,
          (keeps (reverse info.txid) (Has-add_built (reverse info.txid) info false m b.0), has),
          λ k p. keeps k (Keeps-add_built (reverse info.txid) info false m k p),
        )

    -- If every txid of the set is in the map, then there is no panic, there is one row for each
    -- txid, and a key is in the map of transactions afterwards exactly if it was before or is the
    -- reversed txid of a transaction that can be built: the row of a transaction that cannot be
    -- built refers to nothing that the loop added.
    pub build_transactions_only_in_block-keys :
        (txids : List Txid) (infos : List (Txid × TxInfo)) (m : Transactions) (found : List TxInfo)
        → Found txids infos found
        → (m' : Transactions) × (build_transactions_only_in_block lib utxos addresses block_id txids
              infos m
            ≡ some (map block_row found, m'))
          × ((k : Bytes) → is_some (lookup k m') ≡ any (adds k) found || is_some (lookup k m))
    unfolding build_transactions_only_in_block
    build_transactions_only_in_block-keys [] infos m [] h = (m, refl, λ k. refl)
    build_transactions_only_in_block-keys [] infos m (i ∷ is) h = absurd h
    build_transactions_only_in_block-keys (txid ∷ txids) infos m [] h = absurd h
    build_transactions_only_in_block-keys (txid ∷ txids) infos m (info ∷ found) h =
        let key = reverse info.txid in
        let added = add_built lib utxos addresses key info false m in
        let (m', run, has) = build_transactions_only_in_block-keys txids infos added found h.1 in
        (
          m',
          only_in_block-cons txid txids infos m m' info (map block_row found) h.0 run,
          λ k. ground (arith, has k, is_some-lookup-add_built k key info false m),
        )
