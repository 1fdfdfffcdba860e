-- ===== src/Samples/Tables.antt =====
-- Tables in memory: lists of rows, and a function from the txids to the transactions.
use miningpool_observer.Prelude.{
  ◌≡◌, refl, Bool, true, false, not, ◌&&◌, Option, none, some, List, [], ◌∷◌, ◌++◌, map, flat_map,
  filter, contains, contains-filter, is_some, ◌==◌, ℤ, list_eq, nat_eq, int_eq, if◌then◌else◌,
  arith,
}
use miningpool_observer.Bitcoin.{Bytes, Text}
use miningpool_observer.Model.{Transaction}
use miningpool_observer.Database.{
  Table, TableLaws, TransactionTable, TransactionLaws, with_tags, tags_of, find_tx, or_else,
}
use miningpool_observer.Database.Stored.{is_some-find_tx}
use miningpool_observer.Pools.{BlockTable, BlockLaws, UnknownBlock, renamed}

-- Takes back what a failed statement did.
abbrev commit : {A : Type 0} → A → Bool × A → Bool × A
commit before (true, after) = (true, after)
commit before (false, after) = (false, before)

abbrev pub list_table : {Row : Type 0} → Table Row
list_table {Row} = record {
  Db = List Row;
  rows = λ db. db;
  load = λ db. some db;
  delete = λ db. (true, []);
  insert = λ rs db. (true, db ++ rs);
  insert_new = λ rs db. (true, db ++ rs);
  transaction = λ f db. commit db (f db);
}

pub commit-committed :
    {A : Type 0} (before : A) (r : Bool × A)
    → (commit before r).0 ≡ true
    → (r.0 ≡ true) × ((commit before r).1 ≡ r.1)
commit-committed before (true, after) h = (refl, refl)
commit-committed before (false, after) h = absurd (ground arith)

pub commit-rolled_back :
    {A : Type 0} (before : A) (r : Bool × A)
    → (commit before r).0 ≡ false
    → (commit before r).1 ≡ before
commit-rolled_back before (true, after) h = absurd (ground arith)
commit-rolled_back before (false, after) h = refl

pub true_not_false : ¬ (true ≡ false)
true_not_false h = ground arith

pub some_not_none : {A : Type 0} (a : A) → ¬ (some a ≡ none)
some_not_none a h = ground arith

abbrev pub list_laws : {Row : Type 0} → TableLaws (list_table {Row = Row})
list_laws {Row} = record {
  delete_rows = λ db h. refl;
  insert_rows = λ rs db h. refl;
  committed = λ f db h. commit-committed db (f db) h;
  rolled_back = λ f db h. commit-rolled_back db (f db) h;
}

abbrev row_list : Option Transaction → List Transaction
row_list none = []
row_list (some t) = t ∷ []

-- The txids that were inserted.
abbrev new_ids : List Transaction → (Bytes → Option Transaction) → List Bytes
new_ids txns db = filter (λ k. not (is_some (db k))) (map (λ tx. tx.txid) txns)

-- The transactions under some txids can be listed.
abbrev pub tx_table : List Bytes → TransactionTable
tx_table keys = record {
  Db = Bytes → Option Transaction;
  row = λ db k. db k;
  all_transactions = λ db. some (flat_map (λ k. row_list (db k)) keys);
  insert_new = λ txns db. (some (new_ids txns db), λ k. or_else (db k) (find_tx k txns));
  select_tags = λ k db. tags_of (db k);
  update_tags = λ k tags db. (true, λ j. if j == k then with_tags tags (db j) else db j);
}

contains-new_ids :
    (txns : List Transaction) (db : Bytes → Option Transaction) (k : Bytes)
    → contains k (new_ids txns db) ≡ not (is_some (db k)) && is_some (find_tx k txns)
contains-new_ids txns db k = ground (
  arith,
  contains-filter k (λ j. not (is_some (db j))) (map (λ tx. tx.txid) txns),
  is_some-find_tx k txns,
)

pub ids_of :
    (txns : List Transaction) (db : Bytes → Option Transaction) (ids : List Bytes) (k : Bytes)
    → some (new_ids txns db) ≡ some ids
    → contains k ids ≡ not (is_some (db k)) && is_some (find_tx k txns)
ids_of txns db ids k e = cc (contains-new_ids txns db k)

abbrev pub tx_laws : (keys : List Bytes) → TransactionLaws (tx_table keys)
tx_laws keys = record {
  insert_failed = λ txns db h k. absurd (some_not_none (new_ids txns db) h);
  insert_row = λ txns db ids e k. refl;
  insert_ids = λ txns db ids e k. ids_of txns db ids k e;
  select_row = λ k db tags e. e;
  update_failed = λ k tags db h j. absurd (true_not_false h);
  update_row = λ k tags db h j. refl;
}

-- Names of pools under the ids of the blocks; some of the blocks are unknown.
abbrev pub block_table : List UnknownBlock → BlockTable
block_table blocks = record {
  Db = ℤ → Option Text;
  pool_name = λ db id. db id;
  unknown_pool_blocks = λ db. some blocks;
  update_pool_name_with_block_id =
      λ id name db. (true, λ j. if j == id then renamed name (db j) else db j);
}

abbrev pub block_laws : (blocks : List UnknownBlock) → BlockLaws (block_table blocks)
block_laws blocks = record {
  update_failed = λ id name db h j. absurd (true_not_false h);
  update_name = λ id name db h j. refl;
}
