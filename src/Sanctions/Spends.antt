-- ===== src/Sanctions/Spends.antt =====
-- The watched outputs from their creation in a block to the transaction that spends them.
use mathlib.Core.List.{reverse-reverse}
use native.Mathlib.Nat.{zero-add}
use miningpool_observer.Prelude.{
  ℕ, zero, suc, ◌+◌, ◌<◌, ◌^◌, ◌≡◌, refl, ◌∙◌, ap, Bool, true, some, List, [], ◌∷◌, ◌++◌, map,
  reverse, any, contains, lookup, is_some, is_some-to_map, keys, get_elem?, any-get_elem?,
  any-concat-map-filter, any-append, any-map, any_of_contains, ◌==◌, beq_refl, as_u32, as_i32,
  as_u32-as_i32, arith, list_eq, nat_eq, pair_eq,
}
use miningpool_observer.Bitcoin.{Text, OutPoint, TxOut, Tx, BitcoinBlock, Libraries, outpoint_eq}
use miningpool_observer.Model.{SanctionedUtxo}
use miningpool_observer.Sanctions.{
  utxo_key, outpoint_key, build_outpoint_to_sanctioned_utxo_map, is_tx_from_sanctioned,
  is_sanctioned_output, is_tx_to_sanctioned, created_utxos, build_newly_created_sanctioned_utxos,
}

keys_of :
    (utxos : List SanctionedUtxo) → keys (map (λ u. (utxo_key u, u)) utxos) ≡ map utxo_key utxos
keys_of [] = refl
keys_of (u ∷ utxos) = ap (◌∷◌ (utxo_key u)) (keys_of utxos)

-- An outpoint is in the map exactly when some utxo has its txid, reversed, and its index, as `u32`.
pub is_some-lookup-build :
    (outpoint : OutPoint) (utxos : List SanctionedUtxo)
    → is_some (lookup (outpoint_key outpoint) (build_outpoint_to_sanctioned_utxo_map utxos))
      ≡ any (λ u. outpoint_key outpoint == utxo_key u) utxos
unfolding build_outpoint_to_sanctioned_utxo_map
is_some-lookup-build outpoint utxos =
    is_some-to_map (outpoint_key outpoint) (map (λ u. (utxo_key u, u)) utxos)
    ∙ ap (contains (outpoint_key outpoint)) (keys_of utxos)
    ∙ any-map (λ k. outpoint_key outpoint == k) utxo_key utxos

-- The spender is flagged if one of its inputs spends an outpoint that a utxo stands for.
from_sanctioned :
    (spender : Tx) (utxos : List SanctionedUtxo) (outpoint : OutPoint)
    → contains outpoint (map (λ i. i.previous_output) spender.input) ≡ true
    → any (λ u. outpoint_key outpoint == utxo_key u) utxos ≡ true
    → is_tx_from_sanctioned spender (build_outpoint_to_sanctioned_utxo_map utxos) ≡ true
unfolding is_tx_from_sanctioned
from_sanctioned spender utxos outpoint h k =
    any_of_contains
      (λ o. is_some (lookup (outpoint_key o) (build_outpoint_to_sanctioned_utxo_map utxos)))
      outpoint (map (λ i. i.previous_output) spender.input) h
      (is_some-lookup-build outpoint utxos ∙ k)

module _ (lib : Libraries) (block : BitcoinBlock) (addresses : List Text) where
  open lib use {compute_txid}

  -- The outpoint of an output.
  abbrev pub outpoint_of : Tx → ℕ → OutPoint
  outpoint_of tx i = record { txid = compute_txid tx; vout = i }

  created_has :
      (tx : Tx) (start i : ℕ) (outs : List TxOut) {out : TxOut}
      → get_elem? outs i ≡ some out
      → is_sanctioned_output lib addresses out ≡ true
      → start + i < 2 ^ 32
      → any
          (λ u. outpoint_key (outpoint_of tx (start + i)) == utxo_key u)
          (created_utxos lib block tx addresses start outs)
        ≡ true
  unfolding created_utxos
  created_has tx start i [] h k l = cc
  created_has tx start zero (o ∷ outs) {out} h k l =
      let same : o ≡ out = cc in rw (same, k) (ground (arith, key_here))
    where
      key_here :
          (outpoint_key (outpoint_of tx (start + 0))
            == (reverse (reverse (compute_txid tx)), as_u32 (as_i32 start)))
          ≡ true
      key_here =
          rw (reverse-reverse, as_u32-as_i32 start (omega arith))
            (ground (arith, beq_refl (compute_txid tx)))
  created_has tx start (suc i) (o ∷ outs) h k l =
      ground (arith, created_has tx (suc start) i outs h k (omega arith))

  -- An output of a block that pays to a sanctioned address is watched from then on: once the
  -- outputs that the block creates are added to the watched ones, every transaction that spends it
  -- is flagged. Its index in its transaction is below 2^32, the range of a `vout`.
  pub created_then_spent :
      (watched : List SanctionedUtxo) (n i : ℕ) (tx spender : Tx) (out : TxOut)
      → get_elem? block.txdata n ≡ some tx
      → get_elem? tx.output i ≡ some out
      → is_sanctioned_output lib addresses out ≡ true
      → i < 2 ^ 32
      → contains (outpoint_of tx i) (map (λ input. input.previous_output) spender.input) ≡ true
      → is_tx_from_sanctioned spender (
          build_outpoint_to_sanctioned_utxo_map
            (watched ++ build_newly_created_sanctioned_utxos lib block addresses))
        ≡ true
  unfolding build_newly_created_sanctioned_utxos is_tx_to_sanctioned
  created_then_spent watched n i tx spender out in_block in_tx pays small spends =
      let here : any is_spent (created_utxos lib block tx addresses 0 tx.output) ≡ true =
        rw zero-add at (created_has tx 0 i tx.output in_tx pays (omega arith)) in
      let all =
        any-concat-map-filter is_spent (λ t. created_utxos lib block t addresses 0 t.output)
          (λ t. is_tx_to_sanctioned lib t addresses) block.txdata n in_block
          (any-get_elem? (is_sanctioned_output lib addresses) tx.output i in_tx pays) here in
      from_sanctioned spender _ (outpoint_of tx i) spends (
        any-append is_spent watched (build_newly_created_sanctioned_utxos lib block addresses)
        ∙ ground arith)
    where
      is_spent : SanctionedUtxo → Bool
      is_spent u = outpoint_key (outpoint_of tx i) == utxo_key u
