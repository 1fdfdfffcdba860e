-- ===== src/Web/Conflicting.antt =====
-- web/src/db.rs: the blocks with conflicting transactions, and a single one.
pub mod Total
pub mod Joined
use miningpool_observer.Prelude.{
  ℕ, Option, none, some, List, [], ◌∷◌, ◌++◌, map, filter, contains, flat_map, lookup, to_map, ℤ,
  ◌==◌, list_eq, nat_eq, int_eq, int_order,
}
use miningpool_observer.Prelude.Outcomes.{Outcome, returned, expect, ◌>>=◌}
use miningpool_observer.Bitcoin.{Bytes}
use miningpool_observer.Model.{Transaction, ConflictingTransaction}
use miningpool_observer.Web.{
  Block, DbError, Tables, load, load_first, max_blocks_per_page, max_pages, order_desc,
}

pub record ConflictingOutpoint : Type 0 where
  pub txid : Bytes
  pub vout : ℤ

pub record ConflictingTransactionSet : Type 0 where
  pub template_transactions : List Transaction
  pub block_transactions : List Transaction
  pub conflicting_outpoints : List ConflictingOutpoint

pub record ConflictingTransactionInfo (F32 Time : Type 0) : Type 0 where
  pub block : Block F32 Time
  pub conflicting_transaction_sets : List ConflictingTransactionSet

-- `zip` of the txids and the output indexes.
abbrev pub zip_outpoints : List Bytes → List ℤ → List ConflictingOutpoint
zip_outpoints (txid ∷ txids) (vout ∷ vouts) =
    record { txid = txid; vout = vout } ∷ zip_outpoints txids vouts
zip_outpoints _ _ = []

-- The `unwrap` on each txid.
unfoldable pub transactions_of : List (Bytes × Transaction) → List Bytes → Option (List Transaction)
transactions_of m [] = some []
transactions_of m (txid ∷ txids) = elim (lookup txid m) [
  | none ↦ none
  | some tx ↦ elim (transactions_of m txids) [ none ↦ none | some txs ↦ some (tx ∷ txs) ]
]

unfoldable pub transaction_set :
    List (Bytes × Transaction) → ConflictingTransaction → Option ConflictingTransactionSet
unfolding transactions_of
transaction_set m ct = elim (transactions_of m ct.template_txids) [
  | none ↦ none
  | some template_transactions ↦ elim (transactions_of m ct.block_txids) [
    | none ↦ none
    | some block_transactions ↦ some (record {
      template_transactions = template_transactions;
      block_transactions = block_transactions;
      conflicting_outpoints =
          zip_outpoints ct.conflicting_outpoints_txids ct.conflicting_outpoints_vouts;
    })
  ]
]

unfoldable pub transaction_sets :
    List (Bytes × Transaction)
    → List ConflictingTransaction
    → Option (List ConflictingTransactionSet)
unfolding transaction_set
transaction_sets m [] = some []
transaction_sets m (ct ∷ cts) = elim (transaction_set m ct) [
  | none ↦ none
  | some set ↦ elim (transaction_sets m cts) [ none ↦ none | some sets ↦ some (set ∷ sets) ]
]

abbrev pub tx_map : List Transaction → List (Bytes × Transaction)
tx_map txs = to_map (map (λ tx. (tx.txid, tx)) txs)

-- The loops that collect the txids.
abbrev pub conflicting_txids : List ConflictingTransaction → List Bytes
conflicting_txids cts = flat_map (λ ct. ct.template_txids ++ ct.block_txids) cts

module _ {F32 Time : Type 0} where
  -- The loop over the blocks of the page.
  unfoldable pub with_conflicts :
      List (Bytes × Transaction)
      → List ConflictingTransaction
      → List (Block F32 Time)
      → Option (List (ConflictingTransactionInfo F32 Time))
  unfolding transaction_sets
  with_conflicts m cts [] = some []
  with_conflicts m cts (block ∷ blocks) =
      elim (transaction_sets m (filter (λ ct. ct.block_id == block.id) cts)) [
        | none ↦ none
        | some sets ↦ elim (with_conflicts m cts blocks) [
          | none ↦ none
          | some rest ↦ some (record { block = block; conflicting_transaction_sets = sets } ∷ rest)
        ]
      ]

  module _ (db : Tables F32 Time) where
    -- The query for the ids of the blocks of a page, and the count of them, are given.
    unfoldable pub blocks_with_conflicting_transactions :
        (ℕ → List ℤ) → ℕ → ℕ → Outcome DbError (List (ConflictingTransactionInfo F32 Time) × ℕ)
    unfolding with_conflicts
    blocks_with_conflicting_transactions block_ids_on total_block_count page = do
      block_ids ← load db 0 (block_ids_on page)
      count ← load db 1 total_block_count
      cts ← load db 2 (filter (λ ct. contains ct.block_id block_ids) db.conflicting)
      txs ← load db 3 (filter (λ t. contains t.txid (conflicting_txids cts)) db.transactions)
      blocks ←
          load db 4
            (order_desc int_order (λ b. b.id) (filter (λ b. contains b.id block_ids) db.blocks))
      infos ← expect (with_conflicts (tx_map txs) cts blocks)
      returned (infos, max_pages count max_blocks_per_page)

    unfoldable pub single_block_with_conflicting_transactions :
        Bytes → Outcome DbError (ConflictingTransactionInfo F32 Time)
    unfolding transaction_sets
    single_block_with_conflicting_transactions block_hash = do
      block ← load_first db 0 (filter (λ b. b.hash == block_hash) db.blocks)
      cts ← load db 1 (filter (λ ct. ct.block_id == block.id) db.conflicting)
      txs ← load db 2 (filter (λ t. contains t.txid (conflicting_txids cts)) db.transactions)
      sets ← expect (transaction_sets (tx_map txs) cts)
      returned (record { block = block; conflicting_transaction_sets = sets })
