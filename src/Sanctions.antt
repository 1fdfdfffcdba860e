-- ===== src/Sanctions.antt =====
-- The sanctions checks of daemon/src/processing.rs: which transactions pay to a sanctioned address
-- or spend a sanctioned output, and the outputs that a block adds to the watched set.
pub mod Addresses
pub mod Spends
use miningpool_observer.Prelude.{
  ℕ, zero, suc, Bool, true, false, ◌||◌, Option, none, some, List, [], ◌∷◌, ◌++◌, map, reverse, any,
  filter, concat, contains, set_insert, lookup, to_map, is_some, sort, dedup, as_u32, as_i32,
  as_i64, if◌then◌else◌, list_eq, nat_eq, pair_eq, length,
}
use miningpool_observer.Bitcoin.{Bytes, Text, OutPoint, TxIn, TxOut, Tx, BitcoinBlock, Libraries}
use miningpool_observer.Model.{SanctionedUtxo, TxInfo, TxData}

abbrev pub UtxoMap : Type 0
UtxoMap = List ((Bytes × ℕ) × SanctionedUtxo)

-- The stored txid is in display order, and the stored index is an `i32`.
abbrev pub utxo_key : SanctionedUtxo → Bytes × ℕ
utxo_key utxo = (reverse utxo.txid, as_u32 utxo.vout)

unfoldable pub build_outpoint_to_sanctioned_utxo_map : List SanctionedUtxo → UtxoMap
build_outpoint_to_sanctioned_utxo_map utxos = to_map (map (λ utxo. (utxo_key utxo, utxo)) utxos)

abbrev pub outpoint_key : OutPoint → Bytes × ℕ
outpoint_key outpoint = (outpoint.txid, outpoint.vout)

unfoldable pub is_tx_from_sanctioned : Tx → UtxoMap → Bool
is_tx_from_sanctioned tx utxos =
    any (λ outpoint. is_some (lookup (outpoint_key outpoint) utxos))
      (map (λ i. i.previous_output) tx.input)

module _ (lib : Libraries) where
  open lib use {address_from_script, compute_txid, bip34_block_height, bytes_order}

  -- The test in the loops over the outputs.
  abbrev pub is_sanctioned_output : List Text → TxOut → Bool
  is_sanctioned_output addresses output = elim (address_from_script output.script_pubkey) [
    | none ↦ false
    | some address ↦ contains address addresses
  ]

  unfoldable pub is_tx_to_sanctioned : Tx → List Text → Bool
  is_tx_to_sanctioned tx addresses = any (is_sanctioned_output addresses) tx.output

  unfoldable pub is_tx_sanctioned : Tx → UtxoMap → List Text → Bool
  unfolding is_tx_to_sanctioned is_tx_from_sanctioned
  is_tx_sanctioned tx utxos addresses =
      is_tx_to_sanctioned tx addresses || is_tx_from_sanctioned tx utxos

  -- The body of the loop over the outputs.
  abbrev pub add_output_address : List Text → TxOut → List Text → List Text
  add_output_address sanctioned out addresses = elim (address_from_script out.script_pubkey) [
    | none ↦ addresses
    | some address ↦ if contains address sanctioned then set_insert address addresses else addresses
  ]

  unfoldable pub output_addresses : List Text → List TxOut → List Text → List Text
  output_addresses sanctioned [] addresses = addresses
  output_addresses sanctioned (out ∷ outs) addresses =
      output_addresses sanctioned outs (add_output_address sanctioned out addresses)

  unfoldable pub tx_sanctioned_addresses_to : Tx → List Text → List Text
  unfolding output_addresses
  tx_sanctioned_addresses_to tx sanctioned = output_addresses sanctioned tx.output []

  -- The body of the loop over the inputs.
  abbrev pub add_input_address : UtxoMap → TxIn → List Text → List Text
  add_input_address utxos input addresses =
      elim (lookup (outpoint_key input.previous_output) utxos) [
        | none ↦ addresses
        | some utxo ↦ elim (address_from_script utxo.script_pubkey) [
          | none ↦ addresses
          | some address ↦ set_insert address addresses
        ]
      ]

  unfoldable pub input_addresses : UtxoMap → List TxIn → List Text → List Text
  input_addresses utxos [] addresses = addresses
  input_addresses utxos (input ∷ inputs) addresses =
      input_addresses utxos inputs (add_input_address utxos input addresses)

  unfoldable pub tx_sanctioned_addresses_from : Tx → UtxoMap → List Text
  unfolding input_addresses
  tx_sanctioned_addresses_from tx utxos = input_addresses utxos tx.input []

  unfoldable pub tx_sanctioned_addresses : Tx → UtxoMap → List Text → List Text
  tx_sanctioned_addresses tx utxos sanctioned =
      let addresses =
        tx_sanctioned_addresses_to tx sanctioned ++ tx_sanctioned_addresses_from tx utxos in
      dedup (sort ⦃o = bytes_order⦄ addresses)

  -- `unwrap` panics on a transaction that is not in the map: `none`.
  unfoldable pub sanctioned_missing :
      List Bytes → List (Bytes × TxInfo) → UtxoMap → List Text → Option ℕ
  sanctioned_missing [] infos utxos addresses = some 0
  sanctioned_missing (txid ∷ txids) infos utxos addresses =
      let rest = sanctioned_missing txids infos utxos addresses in
      elim (lookup txid infos) [
        | none ↦ none
        | some info ↦ elim rest [
          | none ↦ none
          | some n ↦ some (if is_tx_sanctioned info.tx utxos addresses then suc n else n)
        ]
      ]

  abbrev get_sanctioned_missing_tx_count : List Bytes → TxData → UtxoMap → List Text → Option ℕ
  get_sanctioned_missing_tx_count txids td utxos addresses =
      sanctioned_missing txids td.txid_to_txinfo_map utxos addresses

  -- The inner loop, over the outputs of one transaction from the index `vout` on.
  unfoldable pub created_utxos :
      BitcoinBlock → Tx → List Text → ℕ → List TxOut → List SanctionedUtxo
  created_utxos block tx addresses vout [] = []
  created_utxos block tx addresses vout (output ∷ outputs) =
      let rest = created_utxos block tx addresses (suc vout) outputs in
      let utxo : SanctionedUtxo = record {
        txid = reverse (compute_txid tx);
        vout = as_i32 vout;
        script_pubkey = output.script_pubkey;
        amount = as_i64 output.value;
        height = as_i32 (elim (bip34_block_height block) [ none ↦ 0 | some height ↦ height ]);
      } in
      if is_sanctioned_output addresses output then utxo ∷ rest else rest

  unfoldable pub build_newly_created_sanctioned_utxos :
      BitcoinBlock → List Text → List SanctionedUtxo
  unfolding created_utxos
  build_newly_created_sanctioned_utxos block addresses = concat (
      map (λ tx. created_utxos block tx addresses 0 tx.output)
        (filter (λ tx. is_tx_to_sanctioned tx addresses) block.txdata))
