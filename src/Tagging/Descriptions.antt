-- ===== src/Tagging/Descriptions.antt =====
-- The tags of `get_transaction_tags` against the descriptions in shared/src/tags.rs.
use miningpool_observer.Prelude.{
  ℕ, suc, ◌*◌, Bool, false, not, ◌&&◌, ◌||◌, List, [], ◌∷◌, any, ◌==◌, int_eq, eqb, leb, ltb,
  if◌then◌else◌,
}
use miningpool_observer.Bitcoin.{Text, Libraries}
use miningpool_observer.Model.{TxInfo, feerate}
use miningpool_observer.Tags.{TxTag}
use miningpool_observer.Tags.Codes.{tag_eq}
use miningpool_observer.Sanctions.{UtxoMap, is_sanctioned_output, is_tx_from_sanctioned}
use miningpool_observer.Tagging.{unwrap_or, has_rare_type}

-- How often a table gives a tag.
times_in : TxTag → List (Bool × TxTag) → ℕ
times_in t [] = 0
times_in t ((b, u) ∷ table) = let rest = times_in t table in if t == u && b then suc rest else rest

module _ (lib : Libraries) where
  open lib use {
    f32_ge, f32_of, is_coinbase, is_lock_time_enabled, is_op_return, RawTxInfo, raw_tx_info,
    raw_vsize, has_non_opreturn_output_smaller_than, output_value_sum, sigops, is_spending_segwit,
    is_spending_taproot, is_spending_multisig, is_p2ms_counterparty, is_opreturn_counterparty,
    is_p2sh_counterparty, reveals_inscription, is_signaling_explicit_rbf_replicability,
    potentially_coinjoin, potentially_consolidation, locktime, lock_time_gt, from_consensus,
    is_block_height, is_block_time,
  }

  -- What the descriptions of the tags, which the site shows, say of a transaction.
  abbrev pub describes : TxTag → TxInfo → RawTxInfo → Bool → UtxoMap → List Text → Bool
  describes TxTag.conflicting info raw c utxos addresses = c
  describes TxTag.to_sanctioned info raw c utxos addresses =
      any (is_sanctioned_output lib addresses) info.tx.output
  describes TxTag.from_sanctioned info raw c utxos addresses = is_tx_from_sanctioned info.tx utxos
  describes TxTag.coinbase info raw c utxos addresses = is_coinbase info.tx
  describes TxTag.zero_fee info raw c utxos addresses = eqb info.fee 0 && not (is_coinbase info.tx)
  -- "A feerate higher than 1000 sat/vByte."
  describes TxTag.high_feerate info raw c utxos addresses =
      not (f32_ge (f32_of 1000) (feerate lib info))
  describes TxTag.large info raw c utxos addresses = leb 2500 (raw_vsize raw)
  -- "At least one output smaller than 1000 satoshi."
  describes TxTag.dust_output info raw c utxos addresses =
      any (λ o. ltb o.value 1000) info.tx.output
  describes TxTag.high_value info raw c utxos addresses =
      ltb (100 * 100_000_000) (output_value_sum raw)
  describes TxTag.many_sigops info raw c utxos addresses = ltb 1000 (unwrap_or 0 (sigops info.tx))
  describes TxTag.seg_wit info raw c utxos addresses = is_spending_segwit raw
  describes TxTag.taproot info raw c utxos addresses = is_spending_taproot raw
  describes TxTag.multisig info raw c utxos addresses = is_spending_multisig raw
  describes TxTag.op_return info raw c utxos addresses =
      any (λ out. is_op_return out.script_pubkey) info.tx.output
  describes TxTag.counter_party info raw c utxos addresses =
      is_p2ms_counterparty info.tx
      || is_opreturn_counterparty info.tx
      || is_p2sh_counterparty info.tx
  describes TxTag.inscription info raw c utxos addresses =
      any (λ i. unwrap_or false (reveals_inscription i)) info.tx.input
  describes TxTag.rare_script_type info raw c utxos addresses = has_rare_type lib raw
  describes TxTag.rbf_signaling info raw c utxos addresses =
      is_signaling_explicit_rbf_replicability raw
  describes TxTag.coinjoin info raw c utxos addresses = potentially_coinjoin raw
  describes TxTag.consolidation info raw c utxos addresses = potentially_consolidation raw
  -- "Time-locked to only be valid after a certain absolute block height", and after a timestamp.
  describes TxTag.lock_by_height info raw c utxos addresses =
      is_block_height (locktime raw)
      && is_lock_time_enabled info.tx
      && lock_time_gt (locktime raw) (from_consensus 0)
  describes TxTag.lock_by_timestamp info raw c utxos addresses =
      is_block_time (locktime raw) && is_lock_time_enabled info.tx
  -- By the age in the mempool, which only the site looks at.
  describes TxTag.young info raw c utxos addresses = false

  -- What is given: as described, but for three tags.
  abbrev pub given : TxTag → TxInfo → RawTxInfo → Bool → UtxoMap → List Text → Bool
  given TxTag.high_feerate info raw c utxos addresses = f32_ge (feerate lib info) (f32_of 1000)
  given TxTag.dust_output info raw c utxos addresses = has_non_opreturn_output_smaller_than raw 1000
  given TxTag.lock_by_timestamp info raw c utxos addresses = false
  given t info raw c utxos addresses = describes t info raw c utxos addresses
