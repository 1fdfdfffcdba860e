-- ===== src/Transactions.antt =====
-- The rows that daemon/src/processing.rs builds for the transactions of a block and its template:
-- `build_transaction`, `add_to_transactions` and the loops over the sets of txids.
pub mod Merge
pub mod References
pub mod InTemplate
pub mod Sanctioned
pub mod Counts
pub mod Keyed
use miningpool_observer.Prelude.{
  ℕ, zero, suc, ◌+◌, Bool, true, false, Option, none, some, List, [], ◌∷◌, ◌++◌, map, reverse,
  foldl, contains, lookup, insert, sort, dedup, sum_by, length, ℤ, negsuc, as_i32, as_i64,
  if◌then◌else◌, PartialEq, ◌==◌, list_eq, nat_eq, int_eq, int_order,
}
use miningpool_observer.Bitcoin.{Bytes, Text, Txid, Tx, Libraries}
use miningpool_observer.Model.{
  TxInfo, TxData, Transaction, TransactionOnlyInBlock, TransactionOnlyInTemplate,
  SanctionedTransactionInfo,
}
use miningpool_observer.Sanctions.{UtxoMap, is_tx_sanctioned, tx_sanctioned_addresses}
use miningpool_observer.Tagging.{unwrap_or, get_transaction_tags}

-- `HashMap<Vec<u8>, shared_model::Transaction>`.
abbrev pub Transactions : Type 0
Transactions = List (Bytes × Transaction)

module _ {T : Type 0} ⦃e : PartialEq T⦄ where
  -- The body of the loops over the types of the inputs and of the outputs.
  abbrev pub count_type : List (T × ℕ) → T → List (T × ℕ)
  count_type counts t = elim (lookup t counts) [
    | none ↦ insert t 1 counts
    | some count ↦ insert t (count + 1) counts
  ]

  unfoldable pub count_types : List T → List (T × ℕ)
  count_types = foldl count_type []

-- A tx that is already there keeps its values, but for the tags: where they differ, they are put
-- together, sorted, without duplicates.
unfoldable pub add_to_transactions : Transaction → Transactions → Transactions
add_to_transactions new transactions = elim (lookup new.txid transactions) [
  | none ↦ insert new.txid new transactions
  | some existing ↦
      if existing.tags == new.tags
      then transactions
      else insert new.txid (record existing { tags = dedup (sort (existing.tags ++ new.tags)) })
          transactions
]

module _ (lib : Libraries) where
  open lib use {
    raw_tx_info, RawTxInfo, vsize, sigops, show_count, show_input_type, show_output_type,
    input_types, output_types, input_type_eq, output_type_eq,
  }

  -- `format!("{}x {}", v, k)`.
  abbrev pub format_count : Text → ℕ → Text
  format_count name count = show_count count ++ 120 ∷ 32 ∷ name

  unfoldable pub in_and_outputs_to_strings : RawTxInfo → List Text × List Text
  unfolding count_types
  in_and_outputs_to_strings raw =
      let outputs = count_types ⦃e = output_type_eq⦄ (output_types raw) in
      let inputs = count_types ⦃e = input_type_eq⦄ (input_types raw) in
      (
        map (λ c. format_count (show_input_type c.0) c.1) inputs,
        map (λ c. format_count (show_output_type c.0) c.1) outputs,
      )

  module _ (utxos : UtxoMap) (addresses : List Text) where
    -- `none` stands for a `RawTxInfoError`.
    unfoldable pub build_transaction : Bytes → TxInfo → Bool → Option Transaction
    unfolding in_and_outputs_to_strings
    build_transaction reversed_txid info is_conflicting_tx = elim (raw_tx_info info.tx) [
      | none ↦ none
      | some raw ↦
          let (inputs_strs, outputs_strs) = in_and_outputs_to_strings raw in
          some (record {
            txid = reversed_txid;
            sanctioned = is_tx_sanctioned lib info.tx utxos addresses;
            vsize = as_i32 (vsize info.tx);
            fee = as_i64 info.fee;
            output_sum = as_i64 (sum_by (λ o. o.value) info.tx.output);
            tags = get_transaction_tags lib info raw is_conflicting_tx utxos addresses;
            input_count = as_i32 (length info.tx.input);
            inputs = inputs_strs;
            output_count = as_i32 (length info.tx.output);
            outputs = outputs_strs;
            sigops = as_i64 (unwrap_or 0 (sigops info.tx));
          })
    ]

    -- Builds the transaction and adds it; an error is logged.
    unfoldable pub add_built : Bytes → TxInfo → Bool → Transactions → Transactions
    unfolding build_transaction add_to_transactions
    add_built reversed_txid info is_conflicting_tx transactions =
        elim (build_transaction reversed_txid info is_conflicting_tx) [
          | none ↦ transactions
          | some t ↦ add_to_transactions t transactions
        ]

    -- The loops panic, `none`, on a txid that is not in the map.
    unfoldable pub build_transactions_only_in_block :
        ℤ
        → List Txid
        → List (Txid × TxInfo)
        → Transactions
        → Option (List TransactionOnlyInBlock × Transactions)
    unfolding add_built
    build_transactions_only_in_block block_id [] infos transactions = some ([], transactions)
    build_transactions_only_in_block block_id (txid ∷ txids) infos transactions =
        elim (lookup txid infos) [
          | none ↦ none
          | some info ↦
              elim (build_transactions_only_in_block block_id txids infos
                (add_built (reverse info.txid) info false transactions)) [
                  | none ↦ none
                  | some (rows, transactions') ↦ some (
                    record {
                      block_id = block_id;
                      position = info.position;
                      transaction_txid = reverse info.txid;
                    }
                        ∷ rows,
                    transactions',
                  )
                ]
        ]

    unfoldable pub build_transactions_only_in_template :
        ℤ
        → List Txid
        → List (Txid × TxInfo)
        → List (Txid × ℤ)
        → Transactions
        → Option (List TransactionOnlyInTemplate × Transactions)
    unfolding add_built
    build_transactions_only_in_template block_id [] infos ages transactions =
        some ([], transactions)
    build_transactions_only_in_template block_id (txid ∷ txids) infos ages transactions =
        elim (lookup txid infos) [
          | none ↦ none
          | some info ↦
              elim (build_transactions_only_in_template block_id txids infos ages
                (add_built (reverse info.txid) info false transactions)) [
                  | none ↦ none
                  | some (rows, transactions') ↦ some (
                    record {
                      block_id = block_id;
                      position = info.position;
                      mempool_age_seconds = unwrap_or (negsuc 0) (lookup txid ages);
                      transaction_txid = reverse info.txid;
                    }
                        ∷ rows,
                    transactions',
                  )
                ]
        ]

    -- One of the two loops of `build_sanctioned_transaction_infos`.
    unfoldable pub sanctioned_infos :
        ℤ
        → (Txid → Bool)
        → Bool
        → List Txid
        → List (Txid × TxInfo)
        → Transactions
        → Option (List SanctionedTransactionInfo × Transactions)
    unfolding build_transaction add_to_transactions
    sanctioned_infos block_id in_block in_template [] infos transactions = some ([], transactions)
    sanctioned_infos block_id in_block in_template (txid ∷ txids) infos transactions =
        let next = sanctioned_infos block_id in_block in_template txids infos in
        elim (lookup txid infos) [
          | none ↦ none
          | some info ↦ elim (is_tx_sanctioned lib info.tx utxos addresses) [
            | false ↦ next transactions
            | true ↦ elim (build_transaction (reverse info.txid) info false) [
              | none ↦ next transactions
              | some t ↦ elim (next (add_to_transactions t transactions)) [
                | none ↦ none
                | some (rows, transactions') ↦ some (
                  record {
                    block_id = block_id;
                    transaction_txid = reverse info.txid;
                    in_block = in_block info.txid;
                    in_template = in_template;
                    addresses = tx_sanctioned_addresses lib info.tx utxos addresses;
                  }
                      ∷ rows,
                  transactions',
                )
              ]
            ]
          ]
        ]

    unfoldable pub build_sanctioned_transaction_infos :
        ℤ
        → TxData
        → List Txid
        → List (Txid × TxInfo)
        → List Txid
        → Transactions
        → Option (List SanctionedTransactionInfo × Transactions)
    unfolding sanctioned_infos
    build_sanctioned_transaction_infos block_id block template_txids template_infos only_in_block
          transactions =
        elim (sanctioned_infos block_id (λ txid. contains txid block.txids) true template_txids
          template_infos transactions) [
            | none ↦ none
            | some (rows, transactions') ↦
                elim (sanctioned_infos block_id (λ txid. true) false only_in_block
                  block.txid_to_txinfo_map transactions') [
                    | none ↦ none
                    | some (rows', transactions'') ↦ some (rows ++ rows', transactions'')
                  ]
          ]
