-- ===== src/TxSets.antt =====
-- `build_block_tx_data` and `build_template_tx_data` of daemon/src/processing.rs.
use miningpool_observer.Prelude.{
  ℕ, suc, Option, none, some, List, [], ◌∷◌, ◌++◌, map, set_insert, lookup, insert, to_map, as_i32,
  list_eq, nat_eq,
}
use miningpool_observer.Bitcoin.{
  Txid, Tx, BitcoinBlock, TemplateTransaction, GetBlockTemplateResult, TxFee, Libraries,
}
use miningpool_observer.Model.{TxInfo, TxData}
pub mod Index

abbrev pub no_tx_data : TxData
no_tx_data = record { txids = []; txid_to_txinfo_map = []; txinfos = [] }

-- The end of the loops' bodies: the txid of the set, and the key of the map.
abbrev pub add_info : Txid → Txid → TxInfo → TxData → TxData
add_info txid key info td = record {
  txids = set_insert txid td.txids;
  txid_to_txinfo_map = insert key info td.txid_to_txinfo_map;
  txinfos = td.txinfos ++ info ∷ [];
}

module _ (lib : Libraries) where
  open lib use {compute_txid, template_transaction}

  -- `txid_to_fee_map[&txid]` panics on a txid that is not there: `none`.
  unfoldable pub block_infos : List (Txid × ℕ) → ℕ → List Tx → TxData → Option TxData
  block_infos fees i [] td = some td
  block_infos fees i (tx ∷ txs) td = elim (lookup (compute_txid tx) fees) [
    | none ↦ none
    | some fee ↦ block_infos fees (suc i) txs (
        add_info (compute_txid tx) (compute_txid tx)
          (record { txid = compute_txid tx; tx = tx; position = as_i32 i; fee = fee }) td)
  ]

  unfoldable pub build_block_tx_data : BitcoinBlock → List TxFee → Option TxData
  unfolding block_infos
  build_block_tx_data block fees =
      block_infos (to_map (map (λ f. (f.txid, f.fee)) fees)) 0 block.txdata no_tx_data

  -- A transaction that cannot be deserialized is logged and left out.
  unfoldable pub template_infos : ℕ → List TemplateTransaction → TxData → TxData
  template_infos i [] td = td
  template_infos i (t ∷ ts) td = elim (template_transaction t) [
    | none ↦ template_infos (suc i) ts td
    | some tx ↦ template_infos (suc i) ts (
        add_info (compute_txid tx) t.txid
          (record { txid = compute_txid tx; tx = tx; position = as_i32 i; fee = t.fee }) td)
  ]

  unfoldable pub build_template_tx_data : GetBlockTemplateResult → TxData
  unfolding template_infos
  build_template_tx_data template = template_infos 0 template.transactions no_tx_data
