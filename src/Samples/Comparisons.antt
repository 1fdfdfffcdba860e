-- ===== src/Samples/Comparisons.antt =====
-- A witness of the theorem on the rows that are stored for a block that is compared.
use mathlib.Core.Path.{subst}
use miningpool_observer.Prelude.{
  ◌≡◌, ◌≢◌, nat_order, eqb, none, if◌then◌else◌, length, Option, map, refl, ℕ, true, inl, inr, some,
  List, [], ◌∷◌, pos, ℤ, lookup, is_some, to_map, insert, as_i32, All, ◌==◌, list_eq, nat_eq,
  Bool-cases, arith,
}
use miningpool_observer.Bitcoin.{
  Tx, TemplateTransaction, BitcoinBlock, Libraries, Txid, GetBlockTemplateResult,
}
use miningpool_observer.Model.{ConflictingTransaction, TxInfo, TxData, TxPackage, prev_output_txids}
use miningpool_observer.TxSets.{build_block_tx_data, build_template_tx_data}
use miningpool_observer.Templates.{
  select_best_template_for_block, missing_and_extra, build_debug_template_selection_infos,
}
use miningpool_observer.Packages.{build_packages, belongs}
use miningpool_observer.Transactions.References.{IsBuildable}
use miningpool_observer.Process.{Rows, Comparison, compare_block, build_rows}
use miningpool_observer.Process.Compared.{Infos}
use miningpool_observer.Process.Foreign.{Refers, build_rows-Refers}
use miningpool_observer.Prelude.Outcomes.{panicked}
use miningpool_observer.Tagging.{unwrap_or, get_transaction_tags}
use miningpool_observer.Sanctions.{build_newly_created_sanctioned_utxos, is_tx_sanctioned}
use miningpool_observer.Conflicts.{build_conflicting_transactions}
use miningpool_observer.Transactions.{
  build_transactions_only_in_block, build_transactions_only_in_template,
  build_sanctioned_transaction_infos,
}
use miningpool_observer.Web.{Tables}
use miningpool_observer.Web.Conflicting.{
  blocks_with_conflicting_transactions, single_block_with_conflicting_transactions,
}
use miningpool_observer.Web.Conflicting.Joined.{HasAll, joined_pages-total}
use miningpool_observer.Samples.{sample, sample_block, sample_fees, template_on, tx_of}
use miningpool_observer.Samples.Server.{web_block}
use miningpool_observer.Samples.Witnesses.{second_info}

-- Transactions that spend the same outpoint.
abbrev spending : ℕ → Tx
spending n = record (tx_of n) {
  input =
      record {
        previous_output = record { txid = 9 ∷ []; vout = 0 };
        script_sig = [];
        sequence = 0;
        witness = [];
      }
      ∷ [];
}

abbrev decoded : ℕ → Tx
decoded n = if eqb n 3 then spending n else tx_of n

abbrev decode : TemplateTransaction → Option Tx
decode t = elim t.raw_tx [ [] ↦ none | n ∷ _ ↦ some (decoded n) ]

abbrev lib : Libraries
lib = record sample { template_transaction = decode }

abbrev block : BitcoinBlock
block = record sample_block { txdata = spending 1 ∷ tx_of 2 ∷ [] }

abbrev first_info : TxInfo
first_info = record { txid = 1 ∷ []; tx = spending 1; position = pos 0; fee = 0 }

abbrev block_data : TxData
block_data = record {
  txids = (2 ∷ []) ∷ (1 ∷ []) ∷ [];
  txid_to_txinfo_map = (1 ∷ [], first_info) ∷ (2 ∷ [], second_info) ∷ [];
  txinfos = first_info ∷ second_info ∷ [];
}

-- The block has the transactions 1 and 2, the template 2 and 3; 1 and 3 are in conflict.
abbrev templates : List GetBlockTemplateResult
templates = template_on (7 ∷ []) (2 ∷ 3 ∷ []) ∷ []

abbrev alone : TxInfo → TxPackage
alone info = record { txns = info ∷ [] }

abbrev info_in_template : ℕ → ℤ → TxInfo
info_in_template n position = record {
  txid = n ∷ [];
  tx = decoded n;
  position = position;
  fee = 20;
}

abbrev infos_in_template : List TxInfo
infos_in_template = info_in_template 2 (pos 0) ∷ info_in_template 3 (pos 1) ∷ []

abbrev template_data : TxData
template_data = record {
  txids = (3 ∷ []) ∷ (2 ∷ []) ∷ [];
  txid_to_txinfo_map =
      (2 ∷ [], info_in_template 2 (pos 0)) ∷ (3 ∷ [], info_in_template 3 (pos 1)) ∷ [];
  txinfos = infos_in_template;
}

abbrev compared : Comparison lib
compared = record {
  block_data = block_data;
  template = template_on (7 ∷ []) (2 ∷ 3 ∷ []);
  template_data = template_data;
  template_packages = alone (info_in_template 2 (pos 0)) ∷ alone (info_in_template 3 (pos 1)) ∷ [];
  block_packages = alone first_info ∷ alone second_info ∷ [];
}

compare_sample : compare_block lib block sample_fees templates ≡ some compared
unfolding compare_block build_block_tx_data build_template_tx_data to_map insert as_i32
    select_best_template_for_block missing_and_extra build_packages belongs prev_output_txids
compare_sample = refl

lookup_passes :
    (P : TxInfo → Type 0) (txid : Txid) (info : TxInfo) (m : List (Txid × TxInfo))
    → All (λ e. P e.1) m
    → lookup txid m ≡ some info
    → P info
lookup_passes P txid info [] h e = absurd (ground arith)
lookup_passes P txid info (x ∷ xs) h e = elim (Bool-cases (txid == x.0)) [
  | inl k ↦ subst P (found k e) h.0
  | inr k ↦ lookup_passes P txid info xs h.1 (ground arith)
]
  where
    found : (txid == x.0) ≡ true → lookup txid (x ∷ xs) ≡ some info → x.1 ≡ info
    found k e = ground arith

buildable :
    (td : TxData)
    → All (λ e. is_some (lib.raw_tx_info e.1.tx) ≡ true) td.txid_to_txinfo_map
    → Infos (IsBuildable lib [] []) td
buildable td h txid info e =
    lookup_passes (IsBuildable lib [] []) txid info td.txid_to_txinfo_map h e

build_rows-Refers_example :
    (rows : Rows ℕ) × (build_rows lib block templates compared (λ txids. []) (pos 1) [] []
      ≡ some rows)
    × Refers rows
build_rows-Refers_example =
    build_rows-Refers lib [] [] (pos 1) block sample_fees templates compared (λ txids. [])
      compare_sample (λ tx h. ground arith, (λ tx h. ground arith, tt))
      (buildable block_data (refl, (refl, tt))) (buildable template_data (refl, (refl, tt)))
      (refl, tt)

abbrev built_rows : Option (Rows ℕ)
built_rows = build_rows lib block templates compared (λ txids. []) (pos 1) [] []

abbrev no_rows : Rows ℕ
no_rows = record {
  transactions = [];
  only_in_block = [];
  only_in_template = [];
  sanctioned = [];
  conflicting = [];
  new_utxos = [];
  debug = [];
}

abbrev the_rows : Rows ℕ
the_rows = unwrap_or no_rows built_rows

rows_built : built_rows ≡ some the_rows
unfolding build_rows build_conflicting_transactions build_transactions_only_in_template
    build_transactions_only_in_block build_sanctioned_transaction_infos
    build_debug_template_selection_infos build_newly_created_sanctioned_utxos is_tx_sanctioned
    insert
rows_built = refl

-- A row of another block.
abbrev other_block : ConflictingTransaction
other_block = record {
  block_id = pos 0;
  template_txids = [];
  block_txids = [];
  conflicting_outpoints_txids = [];
  conflicting_outpoints_vouts = [];
}

-- The table has what the daemon inserts, and one other row, without transactions.
abbrev the_tables : Tables ℕ ℕ
the_tables = record {
  blocks = web_block ∷ [];
  transactions = map (λ e. e.1) the_rows.transactions;
  only_in_template = [];
  only_in_block = [];
  sanctioned = [];
  conflicting = other_block ∷ the_rows.conflicting;
  debug = [];
  time_order = nat_order;
  answered = λ n. true;
}

rows_stored : HasAll the_tables.transactions the_rows.transactions
unfolding build_rows build_conflicting_transactions build_transactions_only_in_template
    build_transactions_only_in_block build_sanctioned_transaction_infos
    build_debug_template_selection_infos build_newly_created_sanctioned_utxos is_tx_sanctioned
    insert get_transaction_tags
rows_stored = (refl, (refl, tt))

conflict_found : length the_rows.conflicting ≡ 1
unfolding build_rows build_conflicting_transactions build_transactions_only_in_template
    build_transactions_only_in_block build_sanctioned_transaction_infos
    build_debug_template_selection_infos build_newly_created_sanctioned_utxos is_tx_sanctioned
    insert
conflict_found = refl

joined_pages-total_example :
    (blocks_with_conflicting_transactions the_tables (λ page. pos 1 ∷ []) 1 0 ≢ panicked)
    × (single_block_with_conflicting_transactions the_tables (8 ∷ []) ≢ panicked)
joined_pages-total_example =
    joined_pages-total lib [] [] (pos 1) block sample_fees templates compared (λ txids. []) the_rows
      compare_sample (λ tx h. ground arith, (λ tx h. ground arith, tt))
      (buildable block_data (refl, (refl, tt))) (buildable template_data (refl, (refl, tt)))
      (refl, tt) rows_built the_tables (other_block ∷ []) (λ page. pos 1 ∷ []) 1 0 (8 ∷ [])
      rows_stored refl ((tt, tt), tt)
