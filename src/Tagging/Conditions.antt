-- ===== src/Tagging/Conditions.antt =====
-- Which tags `get_transaction_tags` gives.
use miningpool_observer.Prelude.{
  ◌≡◌, refl, ◌∙◌, ap, inl, inr, Bool, true, false, not, ◌&&◌, ◌||◌, some, List, [], ◌∷◌, any, map,
  contains, ◌==◌, int_eq, Bool-cases, arith, eqb, leb, ltb, if◌then◌else◌, beq→eq, beq_refl,
}
use miningpool_observer.Bitcoin.{Text, OutPoint, Tx, Libraries}
use miningpool_observer.Model.{TxInfo, feerate}
use miningpool_observer.Tags.{TxTag, discriminant}
use miningpool_observer.Tags.Codes.{tag_eq, TxTag-discrete, discriminant_injective}
use miningpool_observer.Sanctions.{UtxoMap, is_tx_to_sanctioned, is_tx_from_sanctioned}
use miningpool_observer.Tagging.{
  unwrap_or, push_tags, has_rare_type, tag_checks, get_transaction_tags, retag_transaction,
}

or_false : (b : Bool) → (b || false) ≡ b
or_false b = ground arith

-- The condition that a table gives for a tag.
condition_in : TxTag → List (Bool × TxTag) → Bool
condition_in t [] = false
condition_in t ((b, u) ∷ table) =
    let rest = condition_in t table in if t == u then b || rest else rest

contains-push_tags :
    (t : TxTag) (table : List (Bool × TxTag))
    → contains (discriminant t) (push_tags table) ≡ condition_in t table
unfolding push_tags condition_in
contains-push_tags t [] = refl
contains-push_tags t ((b, u) ∷ table) = elim (Bool-cases (t == u)) [
  | inl h ↦
      ground (
        arith,
        contains-push_tags t table,
        ap discriminant (beq→eq t u h),
        beq_refl (discriminant u),
      )
  | inr h ↦ elim (Bool-cases (discriminant t == discriminant u)) [
    | inl k ↦ absurd (
        ground (
          arith,
          discriminant_injective t u (beq→eq (discriminant t) (discriminant u) k),
          beq_refl u,
        ))
    | inr k ↦ ground (arith, contains-push_tags t table)
  ]
]

module _ (lib : Libraries) where
  open lib use {
    f32_ge, f32_of, is_coinbase, is_lock_time_enabled, is_op_return, RawTxInfo, raw_tx_info,
    raw_vsize, has_non_opreturn_output_smaller_than, output_value_sum, sigops, is_spending_segwit,
    is_spending_taproot, is_spending_multisig, is_p2ms_counterparty, is_opreturn_counterparty,
    is_p2sh_counterparty, reveals_inscription, is_signaling_explicit_rbf_replicability,
    potentially_coinjoin, potentially_consolidation, locktime, lock_time_gt, from_consensus,
    is_block_height, is_block_time,
  }

  -- The condition under which the code gives each tag. `young` is a tag that the site gives, by the
  -- age in the mempool.
  abbrev condition : TxTag → TxInfo → RawTxInfo → Bool → UtxoMap → List Text → Bool
  condition TxTag.conflicting info raw c utxos addresses = c
  condition TxTag.to_sanctioned info raw c utxos addresses =
      is_tx_to_sanctioned lib info.tx addresses
  condition TxTag.from_sanctioned info raw c utxos addresses = is_tx_from_sanctioned info.tx utxos
  condition TxTag.coinbase info raw c utxos addresses = is_coinbase info.tx
  condition TxTag.zero_fee info raw c utxos addresses = eqb info.fee 0 && not (is_coinbase info.tx)
  condition TxTag.high_feerate info raw c utxos addresses = f32_ge (feerate lib info) (f32_of 1000)
  condition TxTag.large info raw c utxos addresses = leb 2500 (raw_vsize raw)
  condition TxTag.dust_output info raw c utxos addresses =
      has_non_opreturn_output_smaller_than raw 1000
  condition TxTag.high_value info raw c utxos addresses = ltb 10_000_000_000 (output_value_sum raw)
  condition TxTag.many_sigops info raw c utxos addresses = ltb 1000 (unwrap_or 0 (sigops info.tx))
  condition TxTag.seg_wit info raw c utxos addresses = is_spending_segwit raw
  condition TxTag.taproot info raw c utxos addresses = is_spending_taproot raw
  condition TxTag.multisig info raw c utxos addresses = is_spending_multisig raw
  condition TxTag.op_return info raw c utxos addresses =
      any (λ out. is_op_return out.script_pubkey) info.tx.output
  condition TxTag.counter_party info raw c utxos addresses =
      is_p2ms_counterparty info.tx
      || is_opreturn_counterparty info.tx
      || is_p2sh_counterparty info.tx
  condition TxTag.inscription info raw c utxos addresses =
      any (λ i. unwrap_or false (reveals_inscription i)) info.tx.input
  condition TxTag.rare_script_type info raw c utxos addresses = has_rare_type lib raw
  condition TxTag.rbf_signaling info raw c utxos addresses =
      is_signaling_explicit_rbf_replicability raw
  condition TxTag.coinjoin info raw c utxos addresses = potentially_coinjoin raw
  condition TxTag.consolidation info raw c utxos addresses = potentially_consolidation raw
  condition TxTag.lock_by_height info raw c utxos addresses =
      is_block_height (locktime raw)
      && is_lock_time_enabled info.tx
      && lock_time_gt (locktime raw) (from_consensus 0)
  condition TxTag.lock_by_timestamp info raw c utxos addresses =
      is_block_time (locktime raw)
      && is_lock_time_enabled info.tx
      && lock_time_gt (locktime raw) (from_consensus 0)
  condition TxTag.young info raw c utxos addresses = false

  contains-tags :
      (t : TxTag) (info : TxInfo) (raw : RawTxInfo) (c : Bool) (utxos : UtxoMap)
      (addresses : List Text)
      → contains (discriminant t) (get_transaction_tags lib info raw c utxos addresses)
        ≡ condition t info raw c utxos addresses
  unfolding tag_checks TxTag-discrete condition_in get_transaction_tags
  contains-tags TxTag.young info raw c utxos addresses =
      contains-push_tags TxTag.young (tag_checks lib info raw c utxos addresses)
  contains-tags t info raw c utxos addresses =
      contains-push_tags t (tag_checks lib info raw c utxos addresses)
      ∙ or_false (condition t info raw c utxos addresses)

  -- The unit of a lock time: the documentation of `LockTime` says that lock times by height and by
  -- time are not comparable, and that a consensus value below 500,000,000 is a height.
  pub record LockTimeUnits : Type 0 where
    pub gt_same_unit :
        (a b : lib.LockTime) → lock_time_gt a b ≡ true → is_block_time a ≡ is_block_time b
    pub zero_is_height : is_block_time (from_consensus 0) ≡ false

  pub timestamp_test :
      LockTimeUnits
      → (enabled : Bool) (l : lib.LockTime)
      → (is_block_time l && enabled && lock_time_gt l (from_consensus 0)) ≡ false
  timestamp_test units enabled l = elim (Bool-cases (lock_time_gt l (from_consensus 0))) [
    | inl h ↦ ground (arith, units.gt_same_unit l (from_consensus 0) h, units.zero_is_height)
    | inr h ↦ ground arith
  ]

  -- No transaction ever gets the tag `lock_by_timestamp`: its condition compares a lock time by
  -- timestamp with the height 0, and such a comparison is never true.
  pub lock_by_timestamp_never :
      LockTimeUnits
      → (info : TxInfo) (raw : RawTxInfo) (c : Bool) (utxos : UtxoMap) (addresses : List Text)
      → contains
          (discriminant TxTag.lock_by_timestamp)
          (get_transaction_tags lib info raw c utxos addresses)
        ≡ false
  lock_by_timestamp_never units info raw c utxos addresses =
      contains-tags TxTag.lock_by_timestamp info raw c utxos addresses
      ∙ timestamp_test units (is_lock_time_enabled info.tx) (locktime raw)

  no_watched : (tx : Tx) → is_tx_from_sanctioned tx [] ≡ false
  unfolding is_tx_from_sanctioned
  no_watched tx = any_none (map (λ i. i.previous_output) tx.input)
    where
      any_none : (os : List OutPoint) → any (λ o. false) os ≡ false
      any_none [] = refl
      any_none (o ∷ os) = any_none os

  -- A retag of a transaction that has a `RawTxInfo` gives neither `conflicting` nor
  -- `from_sanctioned`, and every other tag under its condition.
  contains-retag_transaction :
      (t : TxTag) (tx : Tx) (info : TxInfo) (addresses : List Text) (raw : RawTxInfo)
      → raw_tx_info tx ≡ some raw
      → contains (discriminant t) (retag_transaction lib tx info addresses)
        ≡ not (t == TxTag.conflicting || t == TxTag.from_sanctioned)
          && condition t info raw false [] addresses
  unfolding retag_transaction TxTag-discrete
  contains-retag_transaction t tx info addresses raw h =
      rw (h, retag_transaction) (contains-tags t info raw false [] addresses ∙ only t)
    where
      only :
          (t : TxTag)
          → condition t info raw false [] addresses ≡ (
              not (t == TxTag.conflicting || t == TxTag.from_sanctioned)
              && condition t info raw false [] addresses)
      only TxTag.conflicting = refl
      only TxTag.from_sanctioned = no_watched info.tx
      only _ = refl
