-- ===== src/Web/Missing.antt =====
-- web/src/db.rs: the transactions that are missing from several blocks, and a single one.
pub mod Total
use miningpool_observer.Prelude.{
  ℕ, ◌*◌, Bool, true, false, Option, none, some, List, [], ◌∷◌, map, filter, reverse, contains,
  lookup, to_map, last?, sort_by_key, Order, ℤ, int_le, int_total, int_trans, int_antisymm,
  int_order, ◌==◌, list_eq, nat_eq, int_eq, if◌then◌else◌,
}
use miningpool_observer.Prelude.Outcomes.{Outcome, panicked, returned, failed, expect, ◌>>=◌}
use miningpool_observer.Bitcoin.{Bytes, Text}
use miningpool_observer.Model.{Transaction, TransactionOnlyInTemplate}
use miningpool_observer.Tagging.{unwrap_or}
use miningpool_observer.Web.{
  Block, DbError, Tables, load, load_first, max_blocks_per_page, max_pages,
}

pub record MissingTransactionBlockInfo (F32 Time : Type 0) : Type 0 where
  pub hash : Bytes
  pub time : Time
  pub height : ℤ
  pub pool : Text
  pub template_position : ℤ
  pub mempool_age : ℤ
  pub template_tx_count : ℤ
  pub last_block_pkg_feerate : F32

pub record MissingTransaction (F32 Time : Type 0) : Type 0 where
  pub transaction : Transaction
  pub blocks : List (MissingTransactionBlockInfo F32 Time)

-- `iter().max()`.
abbrev pub max_of : ℤ → List ℤ → ℤ
max_of h [] = h
max_of h (k ∷ ks) = max_of (if int_le h k then k else h) ks

abbrev pub max? : List ℤ → Option ℤ
max? [] = none
max? (h ∷ hs) = some (max_of h hs)

-- `MissingTransaction::max_height`; `unwrap` panics without a block.
unfoldable pub max_height : {F32 Time : Type 0} → MissingTransaction F32 Time → Option ℤ
max_height m = max? (map (λ b. b.height) m.blocks)

-- `std::cmp::Reverse`.
abbrev pub reverse_int : Order ℤ
reverse_int = record {
  le = λ a b. int_le b a;
  le_total = λ a b. int_total b a;
  le_trans = λ a b c h k. int_trans c b a k h;
  le_antisymm = λ a b h k. int_antisymm a b k h;
}

module _ {F32 Time : Type 0} (zero_f32 : F32) where
  -- The row for a block; `unwrap` panics on a block that was not loaded.
  unfoldable pub block_info :
      List (ℤ × Block F32 Time)
      → TransactionOnlyInTemplate
      → Option (MissingTransactionBlockInfo F32 Time)
  block_info block_id_to_block_map oitt = elim (lookup oitt.block_id block_id_to_block_map) [
    | none ↦ none
    | some block ↦ some (record {
      hash = block.hash;
      time = block.block_time;
      height = block.height;
      pool = block.pool_name;
      template_position = oitt.position;
      mempool_age = oitt.mempool_age_seconds;
      template_tx_count = block.template_tx;
      last_block_pkg_feerate = unwrap_or zero_f32 (last? block.block_pkg_feerates);
    })
  ]

  unfoldable pub block_infos :
      List (ℤ × Block F32 Time)
      → List TransactionOnlyInTemplate
      → Option (List (MissingTransactionBlockInfo F32 Time))
  unfolding block_info
  block_infos m [] = some []
  block_infos m (oitt ∷ rest) = elim (block_info m oitt) [
    | none ↦ none
    | some info ↦ elim (block_infos m rest) [ none ↦ none | some infos ↦ some (info ∷ infos) ]
  ]

  abbrev pub block_map : List (Block F32 Time) → List (ℤ × Block F32 Time)
  block_map blocks = to_map (map (λ b. (b.id, b)) blocks)

  -- The blocks that one transaction is missing from, the highest first.
  unfoldable pub missing_from :
      List (ℤ × Block F32 Time)
      → List TransactionOnlyInTemplate
      → Transaction
      → Option (MissingTransaction F32 Time)
  unfolding block_infos
  missing_from m only_in_these_templates tx = elim (block_infos m only_in_these_templates) [
    | none ↦ none
    | some infos ↦
        some (record { transaction = tx; blocks = reverse (sort_by_key (λ b. b.height) infos) })
  ]

  -- The loop over the transactions, with the maximal height of each.
  unfoldable pub missing_txns :
      List (ℤ × Block F32 Time)
      → List TransactionOnlyInTemplate
      → List Transaction
      → Option (List (ℤ × MissingTransaction F32 Time))
  unfolding missing_from max_height
  missing_txns m rows [] = some []
  missing_txns m rows (tx ∷ txs) =
      elim (missing_from m (filter (λ r. r.transaction_txid == tx.txid) rows) tx) [
        | none ↦ none
        | some missing ↦ elim (max_height missing) [
          | none ↦ none
          | some height ↦ elim (missing_txns m rows txs) [
            | none ↦ none
            | some rest ↦ some ((height, missing) ∷ rest)
          ]
        ]
      ]

  -- `sort_by_key` does not ask for the key of a single element.
  unfoldable pub assemble :
      List Transaction
      → List TransactionOnlyInTemplate
      → List (Block F32 Time)
      → Option (List (MissingTransaction F32 Time))
  unfolding missing_from missing_txns
  assemble (tx ∷ []) rows blocks =
      elim (missing_from (block_map blocks) (filter (λ r. r.transaction_txid == tx.txid) rows) tx) [
        | none ↦ none
        | some missing ↦ some (missing ∷ [])
      ]
  assemble transactions rows blocks = elim (missing_txns (block_map blocks) rows transactions) [
    | none ↦ none
    | some missing ↦ some (map (λ p. p.1) (sort_by_key ⦃o = reverse_int⦄ (λ p. p.0) missing))
  ]

  module _ (db : Tables F32 Time) where
    -- The raw query for the txids of a page, and its count, are given. `DISTINCT` on the rows of a
    -- table with a primary key changes nothing.
    module _ (total_missing_count : ℕ) (txids_on : ℕ → List Bytes) where
      unfoldable pub missing_transactions :
          ℕ → Outcome DbError (List (MissingTransaction F32 Time) × ℕ)
      unfolding assemble
      missing_transactions page = do
        count ← load db 0 total_missing_count
        txids ← load db 1 (txids_on page)
        transactions ← load db 2 (filter (λ t. contains t.txid txids) db.transactions)
        rows ← load db 3 (filter (λ r. contains r.transaction_txid txids) db.only_in_template)
        blocks ← load db 4 (filter (λ b. contains b.id (map (λ r. r.block_id) rows)) db.blocks)
        missing ← expect (assemble transactions rows blocks)
        returned (missing, max_pages count max_blocks_per_page)

    unfoldable pub single_missing_transaction :
        Bytes → Outcome DbError (MissingTransaction F32 Time)
    unfolding missing_from
    single_missing_transaction req_txid = do
      tx ← load_first db 0 (filter (λ t. t.txid == req_txid) db.transactions)
      rows ← load db 1 (filter (λ r. r.transaction_txid == req_txid) db.only_in_template)
      blocks ← load db 2 (filter (λ b. contains b.id (map (λ r. r.block_id) rows)) db.blocks)
      expect (missing_from (block_map blocks) rows tx)
