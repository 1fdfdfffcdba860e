-- ===== src/Samples/Daemon.antt =====
-- Witnesses of the theorems on the rows that the daemon stores and on its threads.
use mathlib.Core.Path.{subst}
use miningpool_observer.Prelude.{
  ◌≡◌, ◌≤◌, ◌<◌, ◌-◌, ◌^◌, ◌⊎◌, ◌||◌, is_some, refl, ℕ, Bool, true, false, Option, none, some, List,
  [], ◌∷◌, map, contains, lookup, any, All, Distinct, ◌==◌, ℤ, pos, leb, if◌then◌else◌, list_eq,
  nat_eq, int_eq, arith,
}
use miningpool_observer.Bitcoin.{Bytes, Text, Txid, GetBlockTemplateResult, outpoint_eq}
use miningpool_observer.Model.{Transaction}
use miningpool_observer.Sanctions.{is_tx_from_sanctioned, build_outpoint_to_sanctioned_utxo_map}
use miningpool_observer.Database.{
  replace_sanctioned_addresses, SanctionedAddress, insert_transactions, merge_tags, find_tx,
  tags_of, with_tags, or_else,
}
use miningpool_observer.Database.Inserting.{tags_in, gives}
use miningpool_observer.Database.Stored.{insert_transactions-Stored}
use miningpool_observer.Database.Keeping.{Kept, insert_transactions-Kept}
use miningpool_observer.Retag.{RawTransactions, old_and_new, retag_transactions}
use miningpool_observer.Retag.Union.{old_and_new-idempotent}
use miningpool_observer.Retag.Snapshot.{retag_transactions-Kept}
use miningpool_observer.Addresses.{
  Download, lines, update_sanctioned_addresses, start_sanctioned_addresses_updater_thread,
}
use miningpool_observer.Addresses.Updating.{Updated, update_sanctioned_addresses-Updated}
use miningpool_observer.Addresses.Parsed.{
  AllParsed, start_sanctioned_addresses_updater_thread-AllParsed,
}
use miningpool_observer.Scans.{Utxo, Scanner, utxo_row, scan_turn}
use miningpool_observer.Scans.Turns.{Turned, found_by, scan_turn-Turned}
use miningpool_observer.Scans.Watching.{outpoint_of, is_tx_from_sanctioned-scanned}
use miningpool_observer.Pools.{UnknownBlock, PoolLookup, retry_unknown_pool_identification}
use miningpool_observer.Pools.Renamed.{Explained, retry_unknown_pool_identification-Explained}
use miningpool_observer.MempoolAges.{mempool_age_seconds}
use miningpool_observer.MempoolAges.Ages.{true_age, lookup-mempool_age_seconds}
use miningpool_observer.Samples.{sample, sample_block, template_on, sample_info, tx_of}
use miningpool_observer.Samples.Rows.{spender}
use miningpool_observer.Samples.Tables.{
  list_table, list_laws, tx_table, tx_laws, block_table, block_laws,
}

-- A block with the transactions 1 and 2, and a template with 2 and 3.
abbrev templates : List GetBlockTemplateResult
templates = template_on (7 ∷ []) (2 ∷ 3 ∷ []) ∷ []

abbrev no_ages : List Txid → List (Txid × ℤ)
no_ages txids = []

abbrev pub stored : ℕ → List ℤ → Transaction
stored n tags = record {
  txid = n ∷ [];
  sanctioned = false;
  vsize = pos 1;
  fee = pos 10;
  output_sum = pos 0;
  tags = tags;
  input_count = pos 0;
  inputs = [];
  output_count = pos 0;
  outputs = [];
  sigops = pos 0;
}

abbrev keys : List Bytes
keys = (1 ∷ []) ∷ (2 ∷ []) ∷ []

-- The transaction 1 is stored with the tag 5.
abbrev tx_db : Bytes → Option Transaction
tx_db k = find_tx k (stored 1 (pos 5 ∷ []) ∷ [])

-- It comes again with another tag, together with a new transaction.
abbrev again : List Transaction
again = stored 1 (pos 7 ∷ []) ∷ stored 2 (pos 6 ∷ []) ∷ []

again_inserted : (insert_transactions (tx_table keys) again tx_db).0 ≡ true
unfolding insert_transactions merge_tags
again_inserted = refl

-- The row of the transaction 1 after the insertion.
abbrev row_after : Option Transaction
row_after = (tx_table keys).row (insert_transactions (tx_table keys) again tx_db).1 (1 ∷ [])

insert_transactions-Stored_example :
    (with_tags [] row_after ≡ with_tags [] (or_else (tx_db (1 ∷ [])) (find_tx (1 ∷ []) again)))
    × ((tag : ℤ)
        → contains tag (tags_in row_after)
          ≡ contains tag (tags_in (tx_db (1 ∷ []))) || gives tag (1 ∷ []) again)
insert_transactions-Stored_example =
    insert_transactions-Stored (tx_table keys) (tx_laws keys) again tx_db (refl, (refl, tt))
      again_inserted (1 ∷ [])

insert_transactions-Kept_example :
    (is_some (tx_db (1 ∷ [])) ≡ true → is_some row_after ≡ true)
    × ((tag : ℤ)
        → contains tag (tags_in (tx_db (1 ∷ []))) ≡ true
        → contains tag (tags_in row_after) ≡ true)
insert_transactions-Kept_example =
    insert_transactions-Kept (tx_table keys) (tx_laws keys) again tx_db (1 ∷ [])

abbrev raw : RawTransactions
raw = record { hash_from_slice = λ bytes. some bytes; get_raw_transaction = λ txid. some (tx_of 1) }

old_and_new-idempotent_example :
    (old_and_new sample []
      (tx_of 1)
      (sample_info 1)
      (old_and_new sample [] (tx_of 1) (sample_info 1) (pos 7 ∷ pos 5 ∷ [])).1).1
    ≡ (old_and_new sample []
        (tx_of 1)
        (sample_info 1)
        (old_and_new sample [] (tx_of 1) (sample_info 1) (pos 7 ∷ pos 5 ∷ [])).1).0
old_and_new-idempotent_example =
    old_and_new-idempotent sample [] (tx_of 1) (sample_info 1) (pos 7 ∷ pos 5 ∷ [])

stored_rows :
    (txs : List Transaction)
    → (tx_table keys).all_transactions tx_db ≡ some txs
    → Distinct (map (λ tx. tx.txid) txs)
      × All (λ tx. tags_of ((tx_table keys).row tx_db tx.txid) ≡ some tx.tags) txs
stored_rows txs e =
    subst
      (λ l.
        Distinct (map (λ tx. tx.txid) l)
        × All (λ tx. tags_of ((tx_table keys).row tx_db tx.txid) ≡ some tx.tags) l)
      (same e) ((refl, tt), (refl, tt))
  where
    same : some (stored 1 (pos 5 ∷ []) ∷ []) ≡ some txs → stored 1 (pos 5 ∷ []) ∷ [] ≡ txs
    same h = cc

retag_transactions-Kept_example :
    Kept
      (tx_table keys)
      (tx_laws keys)
      tx_db
      (retag_transactions sample raw (tx_table keys) true (some []) tx_db).1
retag_transactions-Kept_example =
    retag_transactions-Kept (tx_table keys) (tx_laws keys) sample raw true (some []) tx_db
      stored_rows

-- Two lines, of which the second is no address.
abbrev good : Download
good = record {
  response = some (record { status_code = 200; as_str = some (66 ∷ 10 ∷ 33 ∷ 10 ∷ []) });
  connected = true;
}

abbrev broken : Download
broken = record { response = none; connected = true }

abbrev is_letter : Text → Bool
is_letter [] = false
is_letter (c ∷ cs) = leb 65 c

no_letters : AllParsed is_letter list_table list_laws []
no_letters = tt

update_sanctioned_addresses-Updated_example :
    Updated is_letter list_table good [] (update_sanctioned_addresses is_letter list_table good [])
update_sanctioned_addresses-Updated_example =
    update_sanctioned_addresses-Updated is_letter list_table list_laws good []

first_update :
    (start_sanctioned_addresses_updater_thread is_letter list_table good (broken ∷ []) []).0 ≡ none
unfolding start_sanctioned_addresses_updater_thread update_sanctioned_addresses
    replace_sanctioned_addresses lines
first_update = refl

start_sanctioned_addresses_updater_thread-AllParsed_example :
    AllParsed is_letter list_table list_laws
      (start_sanctioned_addresses_updater_thread is_letter list_table good (broken ∷ []) []).1
start_sanctioned_addresses_updater_thread-AllParsed_example =
    start_sanctioned_addresses_updater_thread-AllParsed is_letter list_table list_laws good
      (broken ∷ []) [] first_update

-- The output that `spender` spends.
abbrev unspent : Utxo
unspent = record { txid = 1 ∷ []; vout = 0; script_pub_key = 66 ∷ []; amount = 5; height = 9 }

abbrev scanner : Scanner ℕ
scanner = record {
  is_address = is_letter;
  scan_tx_out_set_blocking =
      λ descriptors. some (record { height = some 9; unspents = unspent ∷ []; total_amount = 5 });
  now = 50;
  elapsed_secs = 3;
}

abbrev in_db : Option (List SanctionedAddress)
in_db = some (record { address = 66 ∷ [] } ∷ [])

scan_turn-Turned_example :
    Turned {Time = ℕ} list_table list_table scanner
      (found_by {Time = ℕ} list_table list_table scanner true in_db)
      []
      []
      (scan_turn {Time = ℕ} list_table list_table scanner true in_db [] [])
scan_turn-Turned_example =
    scan_turn-Turned {Time = ℕ} list_table list_table list_laws scanner true in_db [] []

is_tx_from_sanctioned-scanned_example :
    is_tx_from_sanctioned spender
      (build_outpoint_to_sanctioned_utxo_map (map utxo_row (unspent ∷ [])))
    ≡ any (λ i. any (λ u. i.previous_output == outpoint_of u) (unspent ∷ [])) spender.input
is_tx_from_sanctioned-scanned_example =
    is_tx_from_sanctioned-scanned spender (unspent ∷ []) (omega arith, tt)

abbrev unknown : List UnknownBlock
unknown = record { id = pos 4; hash = 9 ∷ [] } ∷ []

-- The node has the block, and now its pool is known.
abbrev pools : PoolLookup
pools = record {
  hash_from_slice = λ bytes. some bytes;
  get_block = λ hash. some sample_block;
  identify_pool = λ block. some (80 ∷ []);
}

abbrev names : ℤ → Option Text
names id = some (85 ∷ [])

retry_unknown_pool_identification-Explained_example :
    (retry_unknown_pool_identification pools (block_table unknown) true names (pos 4)
      ≡ some (85 ∷ []))
    ⊎ ((blocks : List UnknownBlock) × (some unknown ≡ some blocks)
        × Explained pools
            (block_table unknown)
            (block_laws unknown)
            (pos 4)
            blocks
            names
            (retry_unknown_pool_identification pools (block_table unknown) true names))
retry_unknown_pool_identification-Explained_example =
    retry_unknown_pool_identification-Explained pools (block_table unknown) (block_laws unknown)
      true names (pos 4)

-- The transaction 1 entered the mempool at 40; of the others the node knows nothing.
abbrev entries : Txid → Option ℕ
entries txid = if txid == 1 ∷ [] then some 40 else none

in_the_past :
    (time : ℕ)
    → entries (1 ∷ []) ≡ some time
    → (time ≤ 100) × (100 - time < 2 ^ 31) × (time < 2 ^ 64)
in_the_past time e = let same : 40 ≡ time = cc in (omega arith, omega arith, omega arith)

lookup-mempool_age_seconds_example :
    lookup (1 ∷ []) (mempool_age_seconds entries 100 keys)
    ≡ (if contains (1 ∷ []) keys then some (true_age (entries (1 ∷ [])) 100) else none)
lookup-mempool_age_seconds_example =
    lookup-mempool_age_seconds entries 100 keys (1 ∷ []) in_the_past
