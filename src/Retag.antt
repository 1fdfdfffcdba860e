-- ===== src/Retag.antt =====
-- `retag_transactions` of daemon/src/main.rs: the thread that tags the stored transactions again.
pub mod Union
pub mod Snapshot
use miningpool_observer.Prelude.{
  Bool, true, false, Option, none, some, List, [], ◌∷◌, ◌++◌, reverse, contains, sort, ◌==◌, ℤ,
  negsuc, as_u64, if◌then◌else◌, list_eq, int_eq, int_order,
}
use miningpool_observer.Bitcoin.{Bytes, Text, Txid, Tx, Libraries}
use miningpool_observer.Model.{TxInfo, Transaction}
use miningpool_observer.Tagging.{retag_transaction}
use miningpool_observer.Database.{TransactionTable}

-- The node and the hashes crate: `get_raw_transaction`, and `Hash::from_slice`, which needs 32 bytes.
pub record RawTransactions : Type 0 where
  pub hash_from_slice : Bytes → Option Txid
  pub get_raw_transaction : Txid → Option Tx

-- The loop that adds the old tags that the new ones do not have.
unfoldable pub push_old : List ℤ → List ℤ → List ℤ
push_old [] new_tags = new_tags
push_old (tag ∷ old_tags) new_tags =
    push_old old_tags (if contains tag new_tags then new_tags else new_tags ++ tag ∷ [])

module _ (lib : Libraries) (addresses : List Text) where
  -- The tags that are compared: the old ones and the new ones, both sorted.
  unfoldable pub old_and_new : Tx → TxInfo → List ℤ → List ℤ × List ℤ
  unfolding push_old
  old_and_new tx info tags =
      (sort tags, sort (push_old (sort tags) (retag_transaction lib tx info addresses)))

  module _ (rpc : RawTransactions) (t : TransactionTable) where
    -- `false` stands for the panic of `unwrap`; an update that fails is logged.
    unfoldable pub retag : Transaction → t.Db → Bool × t.Db
    unfolding old_and_new
    retag tx_in_db db = elim (rpc.hash_from_slice (reverse tx_in_db.txid)) [
      | none ↦ (false, db)
      | some txid ↦ elim (rpc.get_raw_transaction txid) [
        | none ↦ (true, db)
        | some tx ↦
            let info : TxInfo = record {
              txid = txid;
              tx = tx;
              position = negsuc 0;
              fee = as_u64 tx_in_db.fee;
            } in
            let (old_tags, new_tags) = old_and_new tx info tx_in_db.tags in
            elim (new_tags == old_tags) [
              | true ↦ (true, db)
              | false ↦ (true, (t.update_tags tx_in_db.txid new_tags db).1)
            ]
      ]
    ]

    unfoldable pub retag_all : List Transaction → t.Db → Bool × t.Db
    unfolding retag
    retag_all [] db = (true, db)
    retag_all (tx_in_db ∷ transactions_in_db) db =
        let (alive, db') = retag tx_in_db db in
        elim alive [ false ↦ (false, db') | true ↦ retag_all transactions_in_db db' ]

-- The thread: without a connection, the transactions or the addresses it does nothing.
unfoldable pub retag_transactions :
    Libraries
    → RawTransactions
    → (t : TransactionTable) → Bool
    → Option (List Text)
    → t.Db
    → Bool × t.Db
unfolding retag_all
retag_transactions lib rpc t connected addresses_in_db db = elim connected [
  | false ↦ (true, db)
  | true ↦ elim (t.all_transactions db) [
    | none ↦ (true, db)
    | some transactions_in_db ↦ elim addresses_in_db [
      | none ↦ (true, db)
      | some addresses ↦ retag_all lib addresses rpc t transactions_in_db db
    ]
  ]
]
