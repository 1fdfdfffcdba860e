-- ===== src/Web/Conflicting/Joined.antt =====
-- The pages of conflicting transactions over the rows that the daemon stores.
use mathlib.Core.Path.{subst}
use miningpool_observer.Prelude.{
  ◌≡◌, ◌≢◌, true, inl, inr, ℕ, some, List, [], ◌∷◌, ◌++◌, map, contains, ℤ, All, All-append,
  All-mono, ◌==◌, beq→eq, Bool-cases, is_some, list_eq, nat_eq, arith,
}
use miningpool_observer.Prelude.Outcomes.{panicked}
use miningpool_observer.Bitcoin.{
  Libraries, Bytes, Txid, Text, BitcoinBlock, GetBlockTemplateResult, TxFee,
}
use miningpool_observer.Model.{ConflictingTransaction, Transaction}
use miningpool_observer.Sanctions.{UtxoMap}
use miningpool_observer.Transactions.{Transactions}
use miningpool_observer.Transactions.References.{IsBuildable}
use miningpool_observer.TxSets.Index.{HasItsTxid}
use miningpool_observer.Process.{Rows, Comparison, compare_block, build_rows}
use miningpool_observer.Process.Compared.{Infos}
use miningpool_observer.Process.Foreign.{IsInserted, Refers, build_rows-Refers}
use miningpool_observer.Web.{Tables}
use miningpool_observer.Web.Conflicting.{
  blocks_with_conflicting_transactions, single_block_with_conflicting_transactions,
}
use miningpool_observer.Web.Conflicting.Total.{Stored, conflicting_pages-total}

abbrev txids_of : List Transaction → List Bytes
txids_of txs = map (λ t. t.txid) txs

-- The table has all of the inserted transactions.
abbrev pub HasAll : List Transaction → Transactions → Type 0
HasAll txs m = All (λ e. contains e.1.txid (txids_of txs) ≡ true) m

inserted_contained :
    (txs : List Transaction) (m : Transactions) (k : Bytes)
    → HasAll txs m
    → IsInserted m k
    → contains k (txids_of txs) ≡ true
inserted_contained txs [] k h i = absurd (ground arith)
inserted_contained txs (e ∷ m) k h i = elim (Bool-cases (k == e.1.txid)) [
  | inl same ↦ subst (λ j. contains j (txids_of txs) ≡ true) (equal same) h.0
  | inr other ↦ inserted_contained txs m k h.1 (ground arith)
]
  where
    equal : (k == e.1.txid) ≡ true → e.1.txid ≡ k
    equal s = let p : k ≡ e.1.txid = beq→eq k e.1.txid s in cc

Refers-Stored :
    {Time : Type 0} (txs : List Transaction) (rows : Rows Time)
    → HasAll txs rows.transactions
    → Refers rows
    → All (Stored txs) rows.conflicting
Refers-Stored txs rows h (_, _, _, conflicting) =
    All-mono
      (λ (r : ConflictingTransaction).
        All (IsInserted rows.transactions) r.template_txids
        × All (IsInserted rows.transactions) r.block_txids)
      (Stored txs) rows.conflicting (λ r k. (kept r.template_txids k.0, kept r.block_txids k.1))
      conflicting
  where
    kept :
        (ks : List Bytes)
        → All (IsInserted rows.transactions) ks
        → All (λ k. contains k (txids_of txs) ≡ true) ks
    kept ks =
        All-mono (IsInserted rows.transactions) (λ k. contains k (txids_of txs) ≡ true) ks
          (λ k. inserted_contained txs rows.transactions k h)

module _ (lib : Libraries) (utxos : UtxoMap) (addresses : List Text) (block_id : ℤ) where
  open lib use {NaiveDateTime, from_timestamp}

  -- The rows of a compared block can be added to the tables: if neither page could panic on the
  -- rows of the other blocks, neither can afterwards, once the table has the transactions that the
  -- daemon inserted for the block. The conditions on the block are those under which its rows are
  -- built.
  pub joined_pages-total :
      (block : BitcoinBlock) (fees : List TxFee) (ts : List GetBlockTemplateResult)
      (c : Comparison lib) (ages : List Txid → List (Txid × ℤ)) (rows : Rows NaiveDateTime)
      → compare_block lib block fees ts ≡ some c
      → All (HasItsTxid lib) c.template.transactions
      → Infos (IsBuildable lib utxos addresses) c.block_data
      → Infos (IsBuildable lib utxos addresses) c.template_data
      → All (λ t. is_some (from_timestamp t.current_time) ≡ true) ts
      → build_rows lib block ts c ages block_id utxos addresses ≡ some rows
      → {F32 Time : Type 0} (db : Tables F32 Time) (others : List ConflictingTransaction)
        (block_ids_on : ℕ → List ℤ) (total_block_count page : ℕ) (block_hash : Bytes)
      → HasAll db.transactions rows.transactions
      → db.conflicting ≡ others ++ rows.conflicting
      → All (Stored db.transactions) others
      → (blocks_with_conflicting_transactions db block_ids_on total_block_count page ≢ panicked)
        × (single_block_with_conflicting_transactions db block_hash ≢ panicked)
  joined_pages-total block fees ts c ages rows h own kb kt times built db others block_ids_on count
        page block_hash all joined old =
      let (rows', built', refers) =
        build_rows-Refers lib utxos addresses block_id block fees ts c ages h own kb kt times in
      let same : rows' ≡ rows = cc in
      let new = Refers-Stored db.transactions rows all (subst Refers same refers) in
      let joined' : others ++ rows.conflicting ≡ db.conflicting = cc in
      conflicting_pages-total db block_ids_on count page block_hash (
        subst (All (Stored db.transactions)) joined'
          (All-append (Stored db.transactions) others rows.conflicting old new))
