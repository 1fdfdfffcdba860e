-- ===== src/Model.antt =====
-- daemon/src/model.rs, and the tables' rows of shared/src/model.rs.
use miningpool_observer.Prelude.{
  ℕ, Bool, List, map, PartialEq, eq_of_discrete, ℤ, ℕ_discrete, to_set, sum_by, nat_eq, list_eq,
}
use miningpool_observer.Bitcoin.{Bytes, Text, Txid, Tx, Libraries}

-- A transaction with its position in the block or the template, and its fee in satoshi.
pub record TxInfo : Type 0 where
  pub txid : Txid
  pub tx : Tx
  pub position : ℤ
  pub fee : ℕ

unfoldable pub Tx-discrete : Discrete Tx
Tx-discrete = hlevel ℕ_discrete

unfoldable pub TxInfo-discrete : Discrete TxInfo
TxInfo-discrete = hlevel ℕ_discrete

-- The derived `PartialEq`.
instance abbrev pub txinfo_eq : PartialEq TxInfo
txinfo_eq = eq_of_discrete TxInfo-discrete

unfoldable pub prev_output_txids : TxInfo → List Txid
prev_output_txids t = to_set (map (λ i. i.previous_output.txid) t.tx.input)

pub record TxPackage : Type 0 where
  pub txns : List TxInfo

module _ (lib : Libraries) where
  open lib use {vsize, weight, F32, F64, f32_of, f32_div, f64_of, f64_sum, f64_div, f32_of_f64}

  unfoldable pub feerate : TxInfo → F32
  feerate t = f32_div (f32_of t.fee) (f32_of (vsize t.tx))

  unfoldable pub package_feerate : TxPackage → F32
  package_feerate p =
      let vsize_sum = f64_sum (map (λ i. f64_of (vsize i.tx)) p.txns) in
      let fee_sum = f64_sum (map (λ i. f64_of i.fee) p.txns) in
      f32_of_f64 (f64_div fee_sum vsize_sum)

  unfoldable pub package_weight : TxPackage → ℕ
  package_weight p = sum_by (λ i. weight i.tx) p.txns

-- `BlockTxData` and `TemplateTxData`.
pub record TxData : Type 0 where
  pub txids : List Txid
  pub txid_to_txinfo_map : List (Txid × TxInfo)
  pub txinfos : List TxInfo

-- `shared_model::Transaction`. Its txid is reversed, in display order.
pub record Transaction : Type 0 where
  pub txid : Bytes
  pub sanctioned : Bool
  pub vsize : ℤ
  pub fee : ℤ
  pub output_sum : ℤ
  pub tags : List ℤ
  pub input_count : ℤ
  pub inputs : List Text
  pub output_count : ℤ
  pub outputs : List Text
  pub sigops : ℤ

pub record TransactionOnlyInBlock : Type 0 where
  pub block_id : ℤ
  pub position : ℤ
  pub transaction_txid : Bytes

pub record TransactionOnlyInTemplate : Type 0 where
  pub block_id : ℤ
  pub position : ℤ
  pub mempool_age_seconds : ℤ
  pub transaction_txid : Bytes

pub record SanctionedTransactionInfo : Type 0 where
  pub block_id : ℤ
  pub transaction_txid : Bytes
  pub in_block : Bool
  pub in_template : Bool
  pub addresses : List Text

pub record ConflictingTransaction : Type 0 where
  pub block_id : ℤ
  pub template_txids : List Bytes
  pub block_txids : List Bytes
  pub conflicting_outpoints_txids : List Bytes
  pub conflicting_outpoints_vouts : List ℤ

pub record SanctionedUtxo : Type 0 where
  pub txid : Bytes
  pub vout : ℤ
  pub script_pubkey : Bytes
  pub amount : ℤ
  pub height : ℤ
