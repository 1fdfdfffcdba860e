-- ===== src/Process.antt =====
-- `process` of daemon/src/main.rs: what it writes for a block, and what is left of the templates.
use miningpool_observer.Prelude.{
  ℕ, Bool, true, false, not, ◌||◌, Option, none, some, List, [], ◌∷◌, ◌++◌, map, difference,
  intersection, length, sum_by, ℤ, as_i32, as_i64, is_empty, if◌then◌else◌, list_eq, nat_eq, ◌>>=◌,
}
use miningpool_observer.Bitcoin.{
  Bytes, Text, Txid, BitcoinBlock, GetBlockTemplateResult, TxFee, Libraries,
}
use miningpool_observer.Model.{
  TxInfo, TxData, TxPackage, package_feerate, package_weight, Transaction, TransactionOnlyInBlock,
  TransactionOnlyInTemplate, SanctionedTransactionInfo, ConflictingTransaction, SanctionedUtxo,
}
use miningpool_observer.Sanctions.{
  UtxoMap, build_outpoint_to_sanctioned_utxo_map, sanctioned_missing,
  build_newly_created_sanctioned_utxos,
}
use miningpool_observer.Packages.{build_packages}
use miningpool_observer.Transactions.{
  Transactions, build_transactions_only_in_block, build_transactions_only_in_template,
  build_sanctioned_transaction_infos,
}
use miningpool_observer.TxSets.{build_block_tx_data, build_template_tx_data}
use miningpool_observer.Templates.{
  select_best_template_for_block, DebugTemplateSelectionInfo, build_debug_template_selection_infos,
}
use miningpool_observer.Conflicts.{build_conflicting_transactions}
use miningpool_observer.Blocks.{
  IdentificationResult, NewBlock, PackageStats, DiffCounts, build_block,
}
use miningpool_observer.Tagging.{unwrap_or}
pub mod Clearing
pub mod Compared
pub mod Foreign

-- The rows for the tables, in the order in which they are inserted.
pub record Rows (Time : Type 0) : Type 0 where
  pub transactions : Transactions
  pub only_in_block : List TransactionOnlyInBlock
  pub only_in_template : List TransactionOnlyInTemplate
  pub sanctioned : List SanctionedTransactionInfo
  pub conflicting : List ConflictingTransaction
  pub new_utxos : List SanctionedUtxo
  pub debug : List (DebugTemplateSelectionInfo Time)

-- The answers of the database and of the pool identification during one run. `none` and `false`
-- stand for an error.
pub record Answers (F32 Time : Type 0) : Type 0 where
  pub get_connection : Bool
  pub get_connection_again : Bool
  pub sanctioned_addresses : Option (List Text)
  pub get_sanctioned_utxos : Option (List SanctionedUtxo)
  pub identify_pool : Option IdentificationResult
  pub insert_block : NewBlock F32 Time → Option ℤ
  pub mempool_ages : List Txid → List (Txid × ℤ)
  pub insert_transactions : List Transaction → Bool
  pub insert_transactions_only_in_block : List TransactionOnlyInBlock → Bool
  pub insert_transactions_only_in_template : List TransactionOnlyInTemplate → Bool
  pub insert_sanctioned_transaction_infos : List SanctionedTransactionInfo → Bool
  pub insert_conflicting_transactions : List ConflictingTransaction → Bool
  pub insert_sanctioned_utxos : List SanctionedUtxo → Bool
  pub insert_debug_template_selection_infos : List (DebugTemplateSelectionInfo Time) → Bool

-- How far a run came.
pub data Progress : Type 0 where
  no_connection block_failed transactions_failed only_in_block_failed only_in_template_failed
        sanctioned_failed conflicting_failed utxos_failed debug_failed done :
      Progress

-- The chain of inserts, each with its early return, which leaves `last_templates` as they are;
-- `last_templates.clear()` is behind the last one.
unfoldable pub insert_rows :
    {F32 Time : Type 0}
    → Answers F32 Time
    → Rows Time
    → List GetBlockTemplateResult
    → List GetBlockTemplateResult × Progress
insert_rows db rows last_templates =
    if not (db.insert_transactions (map (λ e. e.1) rows.transactions))
    then (last_templates, transactions_failed)
    else if not (db.insert_transactions_only_in_block rows.only_in_block)
    then (last_templates, only_in_block_failed)
    else if not (db.insert_transactions_only_in_template rows.only_in_template)
    then (last_templates, only_in_template_failed)
    else if not (db.insert_sanctioned_transaction_infos rows.sanctioned)
    then (last_templates, sanctioned_failed)
    else if not (db.insert_conflicting_transactions rows.conflicting)
    then (last_templates, conflicting_failed)
    else if not (is_empty rows.new_utxos || db.insert_sanctioned_utxos rows.new_utxos)
    then (last_templates, utxos_failed)
    else if not (db.insert_debug_template_selection_infos rows.debug)
    then (last_templates, debug_failed)
    else ([], done)

module _ (lib : Libraries) where
  open lib use {F32, NaiveDateTime}

  -- What `process` computes before it asks for a connection.
  pub record Comparison : Type 0 where
    pub block_data : TxData
    pub template : GetBlockTemplateResult
    pub template_data : TxData
    pub template_packages : List TxPackage
    pub block_packages : List TxPackage

  unfoldable pub compare_block :
      BitcoinBlock → List TxFee → List GetBlockTemplateResult → Option Comparison
  compare_block block fees last_templates = do
    block_data ← build_block_tx_data lib block fees
    template ← select_best_template_for_block last_templates block_data.txids
    let template_data = build_template_tx_data lib template
    template_packages ← build_packages lib template_data.txinfos
    block_packages ← build_packages lib block_data.txinfos
    some (record {
      block_data = block_data;
      template = template;
      template_data = template_data;
      template_packages = template_packages;
      block_packages = block_packages;
    })

  abbrev pub package_stats : List TxPackage → PackageStats F32
  package_stats packages = record {
    weights = map (λ p. as_i64 (package_weight lib p)) packages;
    feerates = map (package_feerate lib) packages;
  }

  abbrev pub only_in_block : Comparison → List Txid
  only_in_block c = difference c.block_data.txids c.template_data.txids

  abbrev pub only_in_template : Comparison → List Txid
  only_in_template c = difference c.template_data.txids c.block_data.txids

  abbrev pub shared : Comparison → List Txid
  shared c = intersection c.block_data.txids c.template_data.txids

  -- The block's row, from the addresses and the utxos that the database gave.
  unfoldable pub block_row :
      BitcoinBlock
      → List TxFee
      → Comparison
      → UtxoMap
      → List Text
      → Option IdentificationResult
      → Option (NewBlock F32 NaiveDateTime)
  block_row block fees c utxos addresses identified = do
    sanctioned_missing_tx ←
        sanctioned_missing lib (only_in_template c) c.template_data.txid_to_txinfo_map utxos
          addresses
    build_block lib block c.template c.template_data.txid_to_txinfo_map
        (package_stats c.template_packages) (package_stats c.block_packages)
        (record {
          missing_tx = as_i32 (length (only_in_template c));
          sanctioned_missing_tx = as_i32 sanctioned_missing_tx;
          extra_tx = as_i32 (length (only_in_block c));
          shared_tx = as_i32 (length (shared c));
        })
        (sum_by (λ f. f.fee) fees) (sum_by (λ t. t.fee) c.template.transactions) utxos addresses
        identified

  -- The rows that follow the block's.
  unfoldable pub build_rows :
      BitcoinBlock
      → List GetBlockTemplateResult
      → Comparison
      → (List Txid → List (Txid × ℤ))
      → ℤ
      → UtxoMap
      → List Text
      → Option (Rows NaiveDateTime)
  build_rows block last_templates c ages block_id utxos addresses = do
    let template_infos = c.template_data.txid_to_txinfo_map
    let block_infos = c.block_data.txid_to_txinfo_map
    (conflicting, txs₁) ←
        build_conflicting_transactions lib utxos addresses block_id (only_in_template c)
          template_infos (only_in_block c) block_infos []
    (template_rows, txs₂) ←
        build_transactions_only_in_template lib utxos addresses block_id (only_in_template c)
          template_infos (ages (only_in_template c)) txs₁
    (block_rows, txs₃) ←
        build_transactions_only_in_block lib utxos addresses block_id (only_in_block c) block_infos
          txs₂
    (sanctioned, txs₄) ←
        build_sanctioned_transaction_infos lib utxos addresses block_id c.block_data
          c.template_data.txids template_infos (only_in_block c) txs₃
    debug ←
        build_debug_template_selection_infos lib block_id last_templates c.block_data.txids
          c.template.current_time
    some (record {
      transactions = txs₄;
      only_in_block = block_rows;
      only_in_template = template_rows;
      sanctioned = sanctioned;
      conflicting = conflicting;
      new_utxos = build_newly_created_sanctioned_utxos lib block addresses;
      debug = debug;
    })

  -- The part after the connection is there.
  unfoldable pub store :
      Answers F32 NaiveDateTime
      → BitcoinBlock
      → List TxFee
      → List GetBlockTemplateResult
      → Comparison
      → Option (List GetBlockTemplateResult × Progress)
  unfolding insert_rows
  store db block fees last_templates c = do
    let addresses = unwrap_or [] db.sanctioned_addresses
    let utxos = build_outpoint_to_sanctioned_utxo_map (unwrap_or [] db.get_sanctioned_utxos)
    new_block ← block_row block fees c utxos addresses db.identify_pool
    elim (db.insert_block new_block) [
      | none ↦ some (last_templates, block_failed)
      | some block_id ↦
          build_rows block last_templates c db.mempool_ages block_id utxos addresses >>= λ rows.
          some (insert_rows db rows last_templates)
    ]

  -- Without a connection, the source asks for one once more.
  unfoldable pub connect_and_store :
      Answers F32 NaiveDateTime
      → BitcoinBlock
      → List TxFee
      → List GetBlockTemplateResult
      → Comparison
      → Option (List GetBlockTemplateResult × Progress)
  unfolding store
  connect_and_store db block fees last_templates c =
      elim (db.get_connection || db.get_connection_again) [
        | false ↦ some (last_templates, no_connection)
        | true ↦ store db block fees last_templates c
      ]

  -- `none` stands for a panic; else the templates that are left, and how far the run came.
  unfoldable pub process :
      Answers F32 NaiveDateTime
      → BitcoinBlock
      → List TxFee
      → List GetBlockTemplateResult
      → Option (List GetBlockTemplateResult × Progress)
  unfolding compare_block connect_and_store
  process db block fees last_templates = do
    c ← compare_block block fees last_templates
    connect_and_store db block fees last_templates c
