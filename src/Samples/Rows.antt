-- ===== src/Samples/Rows.antt =====
-- Witnesses of the theorems on the rows of the transactions and on sanctioned addresses.
use miningpool_observer.Prelude.{
  ◌≡◌, refl, ℕ, true, false, ◌&&◌, ◌||◌, some, List, [], ◌∷◌, ◌++◌, ℤ, pos, map, filter, reverse,
  contains, any, lookup, is_some, ◌==◌, nat_eq, list_eq, int_eq, pair_eq, arith, All,
}
use miningpool_observer.Bitcoin.{Bytes, Text, Txid, TxOut, Tx, BitcoinBlock, outpoint_eq}
use miningpool_observer.Model.{TxInfo, TxData, Transaction, SanctionedUtxo}
use miningpool_observer.Conflicts.{build_conflicting_transactions}
use miningpool_observer.Conflicts.Spending.{build_conflicting_transactions-total}
use miningpool_observer.Tags.{TxTag, discriminant}
use miningpool_observer.Tags.Codes.{tag_eq}
use miningpool_observer.Tagging.{get_transaction_tags}
use miningpool_observer.Tagging.Conditions.{LockTimeUnits, lock_by_timestamp_never}
use miningpool_observer.Sanctions.{
  build_outpoint_to_sanctioned_utxo_map, is_tx_from_sanctioned,
  build_newly_created_sanctioned_utxos, tx_sanctioned_addresses,
}
use miningpool_observer.Sanctions.Addresses.{
  output_pays, input_spends, contains-tx_sanctioned_addresses,
}
use miningpool_observer.Sanctions.Spends.{created_then_spent}
use miningpool_observer.Transactions.{
  add_to_transactions, build_transactions_only_in_block, build_sanctioned_transaction_infos,
}
use miningpool_observer.Transactions.Merge.{tags_at, contains-tags_at-add}
use miningpool_observer.Transactions.References.{
  Has, Keeps, block_row, build_transactions_only_in_block-keys, adds,
}
use miningpool_observer.Transactions.Sanctioned.{
  is_reported, sanctioned_row, build_sanctioned_transaction_infos-Has,
}
use miningpool_observer.Samples.{sample, tx_of, sample_block, sample_info}

-- Pays to the address 66.
abbrev watched_output : TxOut
watched_output = record { value = 5; script_pubkey = 66 ∷ [] }

abbrev paying : Tx
paying = record (tx_of 1) { output = watched_output ∷ [] }

-- Spends the output of `paying`.
abbrev pub spender : Tx
spender = record (tx_of 2) {
  input =
      record {
        previous_output = record { txid = 1 ∷ []; vout = 0 };
        script_sig = [];
        sequence = 0;
        witness = [];
      }
      ∷ [];
}

abbrev addresses : List Text
addresses = (66 ∷ []) ∷ []

abbrev paying_block : BitcoinBlock
paying_block = record sample_block { txdata = paying ∷ [] }

abbrev paying_info : TxInfo
paying_info = record (sample_info 1) { tx = paying }

sample_units : LockTimeUnits sample
sample_units = record { gt_same_unit = λ a b h. ground arith; zero_is_height = refl }

lock_by_timestamp_never_example :
    contains
      (discriminant TxTag.lock_by_timestamp)
      (get_transaction_tags sample paying_info paying false [] addresses)
    ≡ false
lock_by_timestamp_never_example =
    lock_by_timestamp_never sample sample_units paying_info paying false [] addresses

contains-tx_sanctioned_addresses_example :
    contains (66 ∷ []) (tx_sanctioned_addresses sample paying [] addresses)
    ≡ any (output_pays sample addresses (66 ∷ [])) paying.output
      || any (input_spends sample [] (66 ∷ [])) paying.input
contains-tx_sanctioned_addresses_example =
    contains-tx_sanctioned_addresses sample paying [] addresses (66 ∷ [])

abbrev watched : List SanctionedUtxo
watched = build_newly_created_sanctioned_utxos sample paying_block addresses

created_then_spent_example :
    is_tx_from_sanctioned spender (build_outpoint_to_sanctioned_utxo_map ([] ++ watched)) ≡ true
created_then_spent_example =
    created_then_spent sample paying_block addresses [] 0 0 paying spender watched_output refl refl
      refl (omega arith) refl

abbrev tagged : ℤ → Transaction
tagged t = record {
  txid = 1 ∷ [];
  sanctioned = false;
  vsize = pos 1;
  fee = pos 1;
  output_sum = pos 1;
  tags = t ∷ [];
  input_count = pos 0;
  inputs = [];
  output_count = pos 0;
  outputs = [];
  sigops = pos 0;
}

abbrev key : Bytes
key = 1 ∷ []

abbrev stored : List (Bytes × Transaction)
stored = (key, tagged (pos 9)) ∷ []

contains-tags_at-add_example :
    contains (pos 7) (tags_at key (add_to_transactions (tagged (pos 7)) stored))
    ≡ ((key == (tagged (pos 7)).txid) && contains (pos 7) (tagged (pos 7)).tags)
      || contains (pos 7) (tags_at key stored)
contains-tags_at-add_example = contains-tags_at-add (pos 7) key (tagged (pos 7)) stored

abbrev infos : List (Txid × TxInfo)
infos = (1 ∷ [], paying_info) ∷ []

-- A transaction without a `RawTxInfo`.
abbrev opaque_infos : List (Txid × TxInfo)
opaque_infos = (0 ∷ [], sample_info 0) ∷ []

build_transactions_only_in_block-keys_example :
    (m' : List (Bytes × Transaction)) × (build_transactions_only_in_block sample [] addresses
        (pos 5)
        ((0 ∷ []) ∷ [])
        opaque_infos
        []
      ≡ some (map (block_row sample [] addresses (pos 5)) (sample_info 0 ∷ []), m'))
    × ((k : Bytes)
        → is_some (lookup k m')
          ≡ any (adds sample [] addresses k) (sample_info 0 ∷ [])
            || is_some (lookup {V = Transaction} k []))
build_transactions_only_in_block-keys_example =
    build_transactions_only_in_block-keys sample [] addresses (pos 5) ((0 ∷ []) ∷ []) opaque_infos
      [] (sample_info 0 ∷ []) (refl, tt)

abbrev types : List ℕ
types = 3 ∷ 4 ∷ 3 ∷ []

abbrev paying_data : TxData
paying_data = record {
  txids = (1 ∷ []) ∷ [];
  txid_to_txinfo_map = infos;
  txinfos = paying_info ∷ [];
}

build_sanctioned_transaction_infos-Has_example :
    (m' : List (Bytes × Transaction)) × (build_sanctioned_transaction_infos sample [] addresses
        (pos 5)
        paying_data
        []
        []
        ((1 ∷ []) ∷ [])
        []
      ≡ some (
        map
              (sanctioned_row sample [] addresses
                (pos 5)
                (λ txid. contains txid paying_data.txids)
                true)
              (filter (is_reported sample [] addresses (pos 5)) [])
            ++ map
                (sanctioned_row sample [] addresses (pos 5) (λ txid. true) false)
                (filter (is_reported sample [] addresses (pos 5)) (paying_info ∷ [])),
        m',
      ))
    × All
        (λ info. Has m' (reverse info.txid))
        (filter (is_reported sample [] addresses (pos 5)) []
          ++ filter (is_reported sample [] addresses (pos 5)) (paying_info ∷ []))
    × Keeps [] m'
build_sanctioned_transaction_infos-Has_example =
    build_sanctioned_transaction_infos-Has sample [] addresses (pos 5) paying_data []
      ((1 ∷ []) ∷ []) [] [] [] (paying_info ∷ []) tt (refl, tt)

build_conflicting_transactions-total_example :
    is_some (
      build_conflicting_transactions sample [] addresses
        (pos 5)
        ((2 ∷ []) ∷ [])
        ((2 ∷ [], record (sample_info 2) { tx = spender }) ∷ [])
        ((3 ∷ []) ∷ [])
        ((3 ∷ [], record (sample_info 3) { tx = spender }) ∷ [])
        [])
    ≡ true
build_conflicting_transactions-total_example =
    build_conflicting_transactions-total sample [] addresses (pos 5) ((2 ∷ []) ∷ [])
      ((2 ∷ [], record (sample_info 2) { tx = spender }) ∷ []) ((3 ∷ []) ∷ [])
      ((3 ∷ [], record (sample_info 3) { tx = spender }) ∷ []) []
      (record (sample_info 2) { tx = spender } ∷ []) (record (sample_info 3) { tx = spender } ∷ [])
      (refl, tt) (refl, tt)
