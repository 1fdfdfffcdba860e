-- ===== src/Scans/Watching.antt =====
-- From the scan to the check of a block: the outputs that the node found are those whose spending
-- is flagged.
use mathlib.Core.List.{reverse-reverse}
use miningpool_observer.Prelude.{
  ℕ, ◌<◌, ◌^◌, ◌≡◌, refl, ◌∙◌, List, [], ◌∷◌, map, any, any-map, any_ext, All, lookup, is_some,
  ◌==◌, as_u32-as_i32, arith, list_eq, nat_eq, pair_eq,
}
use miningpool_observer.Bitcoin.{Bytes, OutPoint, Tx, outpoint_eq}
use miningpool_observer.Model.{SanctionedUtxo}
use miningpool_observer.Sanctions.{
  utxo_key, outpoint_key, build_outpoint_to_sanctioned_utxo_map, is_tx_from_sanctioned,
}
use miningpool_observer.Sanctions.Spends.{is_some-lookup-build}
use miningpool_observer.Scans.{Utxo, utxo_row}

abbrev pub outpoint_of : Utxo → OutPoint
outpoint_of u = record { txid = u.txid; vout = u.vout }

key-utxo_row :
    (o : OutPoint) (u : Utxo)
    → u.vout < 2 ^ 32
    → (outpoint_key o == utxo_key (utxo_row u)) ≡ (o == outpoint_of u)
key-utxo_row o u h = rw (reverse-reverse, as_u32-as_i32 u.vout h) refl

found-lookup :
    (o : OutPoint) (unspents : List Utxo)
    → All (λ u. u.vout < 2 ^ 32) unspents
    → any (λ u. outpoint_key o == utxo_key u) (map utxo_row unspents)
      ≡ any (λ u. o == outpoint_of u) unspents
found-lookup o [] h = refl
found-lookup o (u ∷ us) h = ground (arith, key-utxo_row o u h.0, found-lookup o us h.1)

-- A transaction is flagged as spending from a sanctioned address exactly if one of its inputs
-- spends an output that the scan found: storing the outputs, with the reversed txid and the index as
-- an `i32`, and reading them again loses and confuses none. The indexes are below 2^32.
pub is_tx_from_sanctioned-scanned :
    (tx : Tx) (unspents : List Utxo)
    → All (λ u. u.vout < 2 ^ 32) unspents
    → is_tx_from_sanctioned tx (build_outpoint_to_sanctioned_utxo_map (map utxo_row unspents))
      ≡ any (λ i. any (λ u. i.previous_output == outpoint_of u) unspents) tx.input
unfolding is_tx_from_sanctioned
is_tx_from_sanctioned-scanned tx unspents h =
    any-map (λ o. is_some (lookup (outpoint_key o) stored)) (λ i. i.previous_output) tx.input
    ∙ any_ext _ (λ i. any (λ u. i.previous_output == outpoint_of u) unspents) tx.input
        (λ i.
          is_some-lookup-build i.previous_output (map utxo_row unspents)
          ∙ found-lookup i.previous_output unspents h)
  where
    stored : List ((Bytes × ℕ) × SanctionedUtxo)
    stored = build_outpoint_to_sanctioned_utxo_map (map utxo_row unspents)
