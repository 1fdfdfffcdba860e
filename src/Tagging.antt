-- ===== src/Tagging.antt =====
-- `get_transaction_tags` and `retag_transaction` of daemon/src/processing.rs.
pub mod Conditions
pub mod Descriptions
use miningpool_observer.Prelude.{
  ℕ, Bool, true, false, not, ◌&&◌, ◌||◌, Option, none, some, List, [], ◌∷◌, any, ℤ, eqb, leb, ltb,
  if◌then◌else◌, PartialEq,
}
use miningpool_observer.Bitcoin.{Text, TxIn, Tx, Libraries}
use miningpool_observer.Model.{TxInfo, feerate}
use miningpool_observer.Tags.{
  TxTag, discriminant, threshold_feerate_considered_high, threshold_transaction_considered_large,
  threshold_output_considered_dust, threshold_value_considered_high,
  threshold_sigops_considered_many,
}
use miningpool_observer.Sanctions.{UtxoMap, is_tx_to_sanctioned, is_tx_from_sanctioned}

abbrev pub unwrap_or {ℓ} : {A : Type ℓ} → A → Option A → A
unwrap_or d none = d
unwrap_or d (some a) = a

-- The sequence of `if condition { tags.push(tag as i32) }`, in order.
unfoldable pub push_tags : List (Bool × TxTag) → List ℤ
unfolding discriminant
push_tags [] = []
push_tags ((condition, tag) ∷ rest) =
    let tags = push_tags rest in if condition then discriminant tag ∷ tags else tags

module _ (lib : Libraries) where
  open lib use {
    f32_ge, f32_of, is_coinbase, is_lock_time_enabled, is_op_return, RawTxInfo, raw_tx_info,
    raw_vsize, has_non_opreturn_output_smaller_than, output_value_sum, sigops, is_spending_segwit,
    is_spending_taproot, is_spending_multisig, is_p2ms_counterparty, is_opreturn_counterparty,
    is_p2sh_counterparty, reveals_inscription, input_types, output_types, input_type_eq,
    output_type_eq, input_p2pk, input_p2ms, output_p2pk, output_p2ms,
    is_signaling_explicit_rbf_replicability, potentially_coinjoin, potentially_consolidation,
    locktime, lock_time_gt, from_consensus, is_block_height, is_block_time,
  }

  unfoldable pub is_tx_opreturn : Tx → Bool
  is_tx_opreturn tx = any (λ out. is_op_return out.script_pubkey) tx.output

  -- `input_infos` or `output_infos` hold a P2PK or a P2MS.
  abbrev pub has_rare_type : RawTxInfo → Bool
  has_rare_type raw =
      any (λ t. input_type_eq.equal t input_p2pk || input_type_eq.equal t input_p2ms)
        (input_types raw)
      || any (λ t. output_type_eq.equal t output_p2pk || output_type_eq.equal t output_p2ms)
          (output_types raw)

  -- The conditions in the order of the source, which is the display order.
  unfoldable pub tag_checks : TxInfo → RawTxInfo → Bool → UtxoMap → List Text → List (Bool × TxTag)
  unfolding is_tx_opreturn feerate
  tag_checks info raw is_conflicting_tx utxos addresses =
      ((is_conflicting_tx, TxTag.conflicting)
        ∷ (is_tx_to_sanctioned lib info.tx addresses, TxTag.to_sanctioned)
        ∷ (is_tx_from_sanctioned info.tx utxos, TxTag.from_sanctioned)
        ∷ (is_coinbase info.tx, TxTag.coinbase)
        ∷ (eqb info.fee 0 && not (is_coinbase info.tx), TxTag.zero_fee)
        ∷ (f32_ge (feerate lib info) (f32_of threshold_feerate_considered_high), TxTag.high_feerate)
        ∷ (leb threshold_transaction_considered_large (raw_vsize raw), TxTag.large)
        ∷ (
          has_non_opreturn_output_smaller_than raw threshold_output_considered_dust,
          TxTag.dust_output,
        )
        ∷ (ltb threshold_value_considered_high (output_value_sum raw), TxTag.high_value)
        ∷ (ltb threshold_sigops_considered_many (unwrap_or 0 (sigops info.tx)), TxTag.many_sigops)
        ∷ (is_spending_segwit raw, TxTag.seg_wit)
        ∷ (is_spending_taproot raw, TxTag.taproot)
        ∷ (is_spending_multisig raw, TxTag.multisig)
        ∷ (is_tx_opreturn info.tx, TxTag.op_return)
        ∷ (
          is_p2ms_counterparty info.tx
              || is_opreturn_counterparty info.tx
              || is_p2sh_counterparty info.tx,
          TxTag.counter_party,
        )
        ∷ (any (λ i. unwrap_or false (reveals_inscription i)) info.tx.input, TxTag.inscription)
        ∷ (has_rare_type raw, TxTag.rare_script_type)
        ∷ (is_signaling_explicit_rbf_replicability raw, TxTag.rbf_signaling)
        ∷ (potentially_coinjoin raw, TxTag.coinjoin)
        ∷ (potentially_consolidation raw, TxTag.consolidation)
        ∷ (
          is_block_height (locktime raw)
              && is_lock_time_enabled info.tx
              && lock_time_gt (locktime raw) (from_consensus 0),
          TxTag.lock_by_height,
        )
        ∷ (
          is_block_time (locktime raw)
              && is_lock_time_enabled info.tx
              && lock_time_gt (locktime raw) (from_consensus 0),
          TxTag.lock_by_timestamp,
        )
        ∷ [])

  unfoldable pub get_transaction_tags : TxInfo → RawTxInfo → Bool → UtxoMap → List Text → List ℤ
  unfolding push_tags tag_checks
  get_transaction_tags info raw is_conflicting_tx utxos addresses =
      push_tags (tag_checks info raw is_conflicting_tx utxos addresses)

  unfoldable pub retag_transaction : Tx → TxInfo → List Text → List ℤ
  unfolding get_transaction_tags
  retag_transaction tx info addresses = elim (raw_tx_info tx) [
    | none ↦ []
    | some raw ↦ get_transaction_tags info raw false [] addresses
  ]
