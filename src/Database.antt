-- ===== src/Database.antt =====
-- daemon/src/db.rs: the statements that the daemon runs, over the tables as the database gives them.
pub mod Replacing
pub mod Inserting
pub mod Stored
pub mod Keeping
use miningpool_observer.Prelude.{
  ◌≡◌, Bool, true, false, not, ◌&&◌, Option, none, some, List, [], ◌∷◌, ◌++◌, map, length, contains,
  to_set, sort, eqb, ◌==◌, ℤ, is_some, if◌then◌else◌, list_eq, nat_eq, int_eq, int_order,
}
use miningpool_observer.Bitcoin.{Bytes, Text}
use miningpool_observer.Model.{
  Transaction, TransactionOnlyInBlock, TransactionOnlyInTemplate, SanctionedTransactionInfo,
  ConflictingTransaction, SanctionedUtxo,
}
use miningpool_observer.Templates.{DebugTemplateSelectionInfo}

-- A table of the database, by the statements on all of its rows. `false` stands for an error, and
-- what a failed statement did is taken back.
pub record Table (Row : Type 0) : Type 1 where
  pub Db : Type 0
  pub rows : Db → List Row
  pub load : Db → Option (List Row)
  pub delete : Db → Bool × Db
  pub insert : List Row → Db → Bool × Db
  pub insert_new : List Row → Db → Bool × Db
  pub transaction : (Db → Bool × Db) → Db → Bool × Db

-- What the client relies on for a replacement.
pub record TableLaws {Row : Type 0} (t : Table Row) : Type 0 where
  pub delete_rows : (db : t.Db) → (t.delete db).0 ≡ true → t.rows (t.delete db).1 ≡ []
  pub insert_rows :
      (rs : List Row) (db : t.Db)
      → (t.insert rs db).0 ≡ true
      → t.rows (t.insert rs db).1 ≡ t.rows db ++ rs
  -- Committed, or rolled back.
  pub committed :
      (f : t.Db → Bool × t.Db) (db : t.Db)
      → (t.transaction f db).0 ≡ true
      → ((f db).0 ≡ true) × (t.rows (t.transaction f db).1 ≡ t.rows (f db).1)
  pub rolled_back :
      (f : t.Db → Bool × t.Db) (db : t.Db)
      → (t.transaction f db).0 ≡ false
      → t.rows (t.transaction f db).1 ≡ t.rows db

pub record SanctionedAddress : Type 0 where
  pub address : Text

-- `SanctionedUtxoScanInfo`.
pub record SanctionedUtxoScanInfo (Time : Type 0) : Type 0 where
  pub end_time : Time
  pub end_height : ℤ
  pub duration_seconds : ℤ
  pub utxo_amount : ℤ
  pub utxo_count : ℤ

-- `?` behind a statement: an error leaves the function.
abbrev pub and_then : {Db : Type 0} → Bool × Db → (Db → Bool × Db) → Bool × Db
and_then r next = let (ok, db) = r in elim ok [ false ↦ (false, db) | true ↦ next db ]

module _ {Row : Type 0} (t : Table Row) where
  -- Deletes all rows and inserts the given ones, in one database transaction.
  abbrev pub delete_and_insert : List Row → t.Db → Bool × t.Db
  delete_and_insert rs = t.transaction (λ db. and_then (t.delete db) (t.insert rs))

unfoldable pub replace_sanctioned_addresses :
    (t : Table SanctionedAddress) → List SanctionedAddress → t.Db → Bool × t.Db
replace_sanctioned_addresses t addr = delete_and_insert t addr

unfoldable pub clean_and_insert_sanctioned_utxos :
    (t : Table SanctionedUtxo) → List SanctionedUtxo → t.Db → Bool × t.Db
clean_and_insert_sanctioned_utxos t utxos = delete_and_insert t utxos

unfoldable pub insert_sanctioned_utxos :
    (t : Table SanctionedUtxo) → List SanctionedUtxo → t.Db → Bool × t.Db
insert_sanctioned_utxos t utxos = t.insert_new utxos

unfoldable pub insert_sanctioned_utxo_scan_info :
    {Time : Type 0} (t : Table (SanctionedUtxoScanInfo Time))
    → SanctionedUtxoScanInfo Time
    → t.Db
    → Bool × t.Db
insert_sanctioned_utxo_scan_info t info = t.insert_new (info ∷ [])

unfoldable pub insert_transactions_only_in_block :
    (t : Table TransactionOnlyInBlock) → List TransactionOnlyInBlock → t.Db → Bool × t.Db
insert_transactions_only_in_block t txns = t.insert txns

unfoldable pub insert_transactions_only_in_template :
    (t : Table TransactionOnlyInTemplate) → List TransactionOnlyInTemplate → t.Db → Bool × t.Db
insert_transactions_only_in_template t txns = t.insert txns

unfoldable pub insert_sanctioned_transaction_infos :
    (t : Table SanctionedTransactionInfo) → List SanctionedTransactionInfo → t.Db → Bool × t.Db
insert_sanctioned_transaction_infos t infos = t.insert infos

unfoldable pub insert_conflicting_transactions :
    (t : Table ConflictingTransaction) → List ConflictingTransaction → t.Db → Bool × t.Db
insert_conflicting_transactions t ctxns = t.insert ctxns

unfoldable pub insert_debug_template_selection_infos :
    {Time : Type 0} (t : Table (DebugTemplateSelectionInfo Time))
    → List (DebugTemplateSelectionInfo Time)
    → t.Db
    → Bool × t.Db
insert_debug_template_selection_infos t infos = t.insert_new infos

-- The first transaction with this txid.
abbrev pub find_tx : Bytes → List Transaction → Option Transaction
find_tx k [] = none
find_tx k (t ∷ ts) = let rest = find_tx k ts in if k == t.txid then some t else rest

abbrev pub with_tags : List ℤ → Option Transaction → Option Transaction
with_tags tags none = none
with_tags tags (some t) = some (record t { tags = tags })

abbrev pub tags_of : Option Transaction → Option (List ℤ)
tags_of none = none
tags_of (some t) = some t.tags

abbrev pub or_else : Option Transaction → Option Transaction → Option Transaction
or_else none new = new
or_else (some t) new = some t

-- The table of transactions. `insert_new` is `INSERT … ON CONFLICT DO NOTHING RETURNING txid`.
pub record TransactionTable : Type 1 where
  pub Db : Type 0
  pub row : Db → Bytes → Option Transaction
  pub all_transactions : Db → Option (List Transaction)
  pub insert_new : List Transaction → Db → Option (List Bytes) × Db
  pub select_tags : Bytes → Db → Option (List ℤ)
  pub update_tags : Bytes → List ℤ → Db → Bool × Db

-- What the statements do. A failed one changes nothing.
pub record TransactionLaws (t : TransactionTable) : Type 0 where
  pub insert_failed :
      (txns : List Transaction) (db : t.Db)
      → (t.insert_new txns db).0 ≡ none
      → (k : Bytes) → t.row (t.insert_new txns db).1 k ≡ t.row db k
  pub insert_row :
      (txns : List Transaction) (db : t.Db) (ids : List Bytes)
      → (t.insert_new txns db).0 ≡ some ids
      → (k : Bytes) → t.row (t.insert_new txns db).1 k ≡ or_else (t.row db k) (find_tx k txns)
  pub insert_ids :
      (txns : List Transaction) (db : t.Db) (ids : List Bytes)
      → (t.insert_new txns db).0 ≡ some ids
      → (k : Bytes) → contains k ids ≡ not (is_some (t.row db k)) && is_some (find_tx k txns)
  pub select_row :
      (k : Bytes) (db : t.Db) (tags : List ℤ)
      → t.select_tags k db ≡ some tags
      → tags_of (t.row db k) ≡ some tags
  pub update_failed :
      (k : Bytes) (tags : List ℤ) (db : t.Db)
      → (t.update_tags k tags db).0 ≡ false
      → (j : Bytes) → t.row (t.update_tags k tags db).1 j ≡ t.row db j
  pub update_row :
      (k : Bytes) (tags : List ℤ) (db : t.Db)
      → (t.update_tags k tags db).0 ≡ true
      → (j : Bytes)
      → t.row (t.update_tags k tags db).1 j
        ≡ (if j == k then with_tags tags (t.row db j) else t.row db j)

module _ (t : TransactionTable) where
  -- The loop over the transactions that were not inserted; `?` leaves it.
  unfoldable pub merge_tags : List Bytes → List Transaction → t.Db → Bool × t.Db
  merge_tags inserted [] db = (true, db)
  merge_tags inserted (tx ∷ txns) db = elim (contains tx.txid inserted) [
    | true ↦ merge_tags inserted txns db
    | false ↦ elim (t.select_tags tx.txid db) [
      | none ↦ (false, db)
      | some db_tx_tags ↦ elim (db_tx_tags == tx.tags) [
        | true ↦ merge_tags inserted txns db
        | false ↦
            and_then (t.update_tags tx.txid (sort (to_set (db_tx_tags ++ tx.tags))) db)
              (merge_tags inserted txns)
      ]
    ]
  ]

  unfoldable pub insert_transactions : List Transaction → t.Db → Bool × t.Db
  unfolding merge_tags
  insert_transactions txns db =
      let (returned, db') = t.insert_new txns db in
      elim returned [
        | none ↦ (false, db')
        | some inserted_txids ↦
            elim (eqb (length (to_set inserted_txids))
              (length (to_set (map (λ tx. tx.txid) txns)))) [
                | true ↦ (true, db')
                | false ↦ merge_tags inserted_txids txns db'
              ]
      ]
