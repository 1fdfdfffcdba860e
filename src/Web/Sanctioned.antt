-- ===== src/Web/Sanctioned.antt =====
-- web/src/db.rs: a block with its transactions, the sanctioned transactions that a block is missing,
-- and the selections of templates.
pub mod Joined
use miningpool_observer.Prelude.{
  ℕ, Bool, true, false, not, ◌&&◌, Option, none, some, List, [], ◌∷◌, ◌++◌, map, filter, contains,
  flat_map, length, ℤ, ◌==◌, list_eq, nat_eq, int_eq,
}
use miningpool_observer.Prelude.Outcomes.{Outcome, returned, ◌>>=◌}
use miningpool_observer.Bitcoin.{Bytes, Text}
use miningpool_observer.Model.{
  Transaction, TransactionOnlyInTemplate, TransactionOnlyInBlock, SanctionedTransactionInfo,
}
use miningpool_observer.Templates.{DebugTemplateSelectionInfo}
use miningpool_observer.Web.{
  Block, DbError, Tables, load, load_first, max_blocks_per_page, max_pages, newest_first,
  order_desc,
}

pub record BlockWithTx (F32 Time : Type 0) : Type 0 where
  pub block : Block F32 Time
  pub txns_only_in_template : List (TransactionOnlyInTemplate × Transaction)
  pub txns_only_in_block : List (TransactionOnlyInBlock × Transaction)

pub record MissingSanctionedTransaction : Type 0 where
  pub transaction : Transaction
  pub missing_info : TransactionOnlyInTemplate
  pub addresses : List Text

pub record DebugTemplateSelectionInfosAndBlock (F32 Time : Type 0) : Type 0 where
  pub block : Block F32 Time
  pub infos : List (DebugTemplateSelectionInfo Time)

-- `inner_join` of rows with their transactions.
abbrev pub join_tx :
    {Row : Type 0} → (Row → Bytes) → List Transaction → List Row → List (Row × Transaction)
join_tx txid_of txs rows =
    flat_map (λ r. map (λ t. (r, t)) (filter (λ t. t.txid == txid_of r) txs)) rows

-- The rows of one transaction for one of its infos: all of the template rows that it has.
abbrev pub missing_rows :
    List TransactionOnlyInTemplate
    → Transaction
    → SanctionedTransactionInfo
    → List MissingSanctionedTransaction
missing_rows rows tx info =
    map (λ r. record { transaction = tx; missing_info = r; addresses = info.addresses })
      (filter (λ r. r.transaction_txid == tx.txid) rows)

-- The infos of a transaction that pass the query's filter: those of the block, for a transaction
-- that only the template has.
abbrev pub missing_infos :
    List SanctionedTransactionInfo → ℤ → Transaction → List SanctionedTransactionInfo
missing_infos infos block_id tx =
    filter
      (λ i.
        i.transaction_txid == tx.txid && i.block_id == block_id && not i.in_block && i.in_template)
      infos

module _ {F32 Time : Type 0} (db : Tables F32 Time) where
  unfoldable pub block_with_tx : Bytes → Outcome DbError (BlockWithTx F32 Time)
  block_with_tx block_hash = do
    block ← load_first db 0 (filter (λ b. b.hash == block_hash) db.blocks)
    in_template ← load db 1 (
        join_tx (λ r. r.transaction_txid) db.transactions
          (filter (λ r. r.block_id == block.id) db.only_in_template))
    in_block ← load db 2 (
        join_tx (λ r. r.transaction_txid) db.transactions
          (filter (λ r. r.block_id == block.id) db.only_in_block))
    returned (record {
      block = block;
      txns_only_in_template = in_template;
      txns_only_in_block = in_block;
    })

  -- The joins are on the txid.
  unfoldable pub missing_sanctioned_of : ℤ → List MissingSanctionedTransaction
  missing_sanctioned_of block_id =
      flat_map
        (λ tx.
          flat_map (missing_rows db.only_in_template tx) (missing_infos db.sanctioned block_id tx))
        db.transactions

  unfoldable pub missing_sanctioned_txns_for_block :
      Bytes → Outcome DbError (List MissingSanctionedTransaction)
  unfolding missing_sanctioned_of
  missing_sanctioned_txns_for_block req_hash = do
    block ← load_first db 0 (filter (λ b. b.hash == req_hash) db.blocks)
    load db 1 (missing_sanctioned_of block.id)

  -- The query for the ids of the blocks of a page, and the count of them, are given.
  unfoldable pub debug_template_selection_infos :
      (ℕ → List ℤ)
      → ℕ
      → ℕ
      → Outcome DbError (List (DebugTemplateSelectionInfosAndBlock F32 Time) × ℕ)
  debug_template_selection_infos block_ids_on infos_count page = do
    block_ids ← load db 0 (block_ids_on page)
    infos ← load db 1 (
        order_desc db.time_order (λ i. i.template_time)
          (filter (λ i. contains i.block_id block_ids) db.debug))
    blocks ← load db 2 (newest_first db (filter (λ b. contains b.id block_ids) db.blocks))
    count ← load db 3 infos_count
    returned (
      map (λ b. record { block = b; infos = filter (λ info. info.block_id == b.id) infos }) blocks,
      max_pages count max_blocks_per_page,
    )
