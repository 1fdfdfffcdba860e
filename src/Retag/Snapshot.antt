-- ===== src/Retag/Snapshot.antt =====
-- What the retagging of all transactions keeps, from the rows that were loaded before the loop.
use mathlib.Core.Path.{subst}
use miningpool_observer.Prelude.{
  ◌≡◌, refl, sym, Bool, true, false, inl, inr, some, Option, List, [], ◌∷◌, map, reverse, All,
  contains, Distinct, ◌==◌, beq_comm, ℤ, negsuc, as_u64, list_eq, nat_eq, int_eq, Bool-cases,
  Option-cases, arith,
}
use miningpool_observer.Bitcoin.{Bytes, Text, Libraries}
use miningpool_observer.Model.{TxInfo, Transaction}
use miningpool_observer.Database.{TransactionTable, TransactionLaws, tags_of}
use miningpool_observer.Database.Keeping.{Kept, Kept-refl, Kept-trans, Kept-cast, update-Kept}
use miningpool_observer.Retag.{RawTransactions, old_and_new, retag, retag_all, retag_transactions}
use miningpool_observer.Retag.Union.{contains-old_and_new}

module _ (t : TransactionTable) (laws : TransactionLaws t) where
  -- The row has the tags of the loaded transaction.
  abbrev pub IsCurrent : t.Db → Transaction → Type 0
  IsCurrent db tx = tags_of (t.row db tx.txid) ≡ some tx.tags

  -- Another row than the updated one has the tags that it had.
  IsCurrent-update :
      (k : Bytes) (tags : List ℤ) (db : t.Db) (tx : Transaction)
      → (tx.txid == k) ≡ false
      → IsCurrent db tx
      → IsCurrent (t.update_tags k tags db).1 tx
  IsCurrent-update k tags db tx ne h = elim (Bool-cases (t.update_tags k tags db).0) [
    | inl u ↦ ground (arith, laws.update_row k tags db u tx.txid)
    | inr u ↦ ground (arith, laws.update_failed k tags db u tx.txid)
  ]

  module _ (lib : Libraries) (addresses : List Text) (rpc : RawTransactions) where
    -- One transaction leaves the rows alone, or updates its own to more tags.
    abbrev Step : Transaction → t.Db → t.Db → Type 0
    Step tx db db' =
        Kept t laws db db'
        × ((other : Transaction)
            → (other.txid == tx.txid) ≡ false
            → IsCurrent db other
            → IsCurrent db' other)

    retag-Step :
        (tx : Transaction) (db : t.Db)
        → IsCurrent db tx
        → Step tx db (retag lib addresses rpc t tx db).1
    unfolding retag
    retag-Step tx db h = elim (Option-cases (rpc.hash_from_slice (reverse tx.txid))) [
      | inl e ↦ becomes db (retag lib addresses rpc t tx db).1 (ground arith) (same db)
      | inr (txid, e) ↦ elim (Option-cases (rpc.get_raw_transaction txid)) [
        | inl g ↦ becomes db (retag lib addresses rpc t tx db).1 (ground arith) (same db)
        | inr (raw, g) ↦
            let info : TxInfo = record {
              txid = txid;
              tx = raw;
              position = negsuc 0;
              fee = as_u64 tx.fee;
            } in
            let tags = old_and_new lib addresses raw info tx.tags in
            elim (Bool-cases (tags.1 == tags.0)) [
              | inl q ↦ becomes db (retag lib addresses rpc t tx db).1 (ground arith) (same db)
              | inr q ↦
                  becomes (t.update_tags tx.txid tags.1 db).1 (retag lib addresses rpc t tx db).1
                    (ground arith)
                    (
                      update-Kept t laws tx.txid tx.tags tags.1 db h (λ tag k.
                          ground (arith, contains-old_and_new lib addresses raw info tag tx.tags)),
                      λ other ne. IsCurrent-update tx.txid tags.1 db other ne,
                    )
            ]
      ]
    ]
      where
        same : (db : t.Db) → Step tx db db
        same db = (Kept-refl t laws db db (λ k. refl), λ other ne h. h)

        becomes : (db₁ db₂ : t.Db) → db₂ ≡ db₁ → Step tx db db₁ → Step tx db db₂
        becomes db₁ db₂ e = subst (Step tx db) (sym e)

    others_differ :
        (k : Bytes) (txs : List Transaction)
        → contains k (map (λ tx. tx.txid) txs) ≡ false
        → All (λ other. (other.txid == k) ≡ false) txs
    others_differ k [] h = tt
    others_differ k (tx ∷ txs) h =
        (ground (arith, beq_comm k tx.txid), others_differ k txs (ground arith))

    still-IsCurrent :
        (tx : Transaction) (txs : List Transaction) (db db' : t.Db)
        → Step tx db db'
        → All (λ other. (other.txid == tx.txid) ≡ false) txs
        → All (IsCurrent db) txs
        → All (IsCurrent db') txs
    still-IsCurrent tx [] db db' s d h = tt
    still-IsCurrent tx (other ∷ txs) db db' s d h =
        (s.1 other d.0 h.0, still-IsCurrent tx txs db db' s d.1 h.1)

    retag_all-Kept :
        (txs : List Transaction) (db : t.Db)
        → Distinct (map (λ tx. tx.txid) txs)
        → All (IsCurrent db) txs
        → Kept t laws db (retag_all lib addresses rpc t txs db).1
    unfolding retag_all
    retag_all-Kept [] db d h = Kept-refl t laws db db (λ k. refl)
    retag_all-Kept (tx ∷ txs) db d h =
        let whole = (retag_all lib addresses rpc t (tx ∷ txs) db).1 in
        let r = retag lib addresses rpc t tx db in
        let step = retag-Step tx db h.0 in
        elim (Bool-cases r.0) [
          | inr e ↦ Kept-cast t laws db r.1 whole (ground arith) step.0
          | inl e ↦
              let after = (retag_all lib addresses rpc t txs r.1).1 in
              Kept-cast t laws db after whole (ground arith) (
                Kept-trans t laws db r.1 after step.0 (
                  retag_all-Kept txs r.1 d.1
                    (still-IsCurrent tx txs db r.1 step (others_differ tx.txid txs d.0) h.1)))
        ]

  -- If the loaded transactions are the rows of the table, each once, and nobody else writes to the
  -- table meanwhile, then no row is gone and no row has lost a tag when the thread is through,
  -- whichever requests and updates failed, and even if it panicked half-way.
  pub retag_transactions-Kept :
      (lib : Libraries) (rpc : RawTransactions) (connected : Bool)
      (addresses_in_db : Option (List Text)) (db : t.Db)
      → ((txs : List Transaction)
          → t.all_transactions db ≡ some txs
          → Distinct (map (λ tx. tx.txid) txs)
            × All (λ tx. tags_of (t.row db tx.txid) ≡ some tx.tags) txs)
      → Kept t laws db (retag_transactions lib rpc t connected addresses_in_db db).1
  unfolding retag_transactions
  retag_transactions-Kept lib rpc false in_db db h = Kept-refl t laws db db (λ k. refl)
  retag_transactions-Kept lib rpc true in_db db h =
      let whole = (retag_transactions lib rpc t true in_db db).1 in
      elim (Option-cases (t.all_transactions db)) [
        | inl e ↦ Kept-cast t laws db db whole (ground arith) (Kept-refl t laws db db (λ k. refl))
        | inr (txs, e) ↦ elim (Option-cases in_db) [
          | inl q ↦ Kept-cast t laws db db whole (ground arith) (Kept-refl t laws db db (λ k. refl))
          | inr (addresses, q) ↦
              let after = (retag_all lib addresses rpc t txs db).1 in
              let (distinct, current) = h txs e in
              Kept-cast t laws db after whole (ground arith)
                (retag_all-Kept lib addresses rpc txs db distinct current)
        ]
      ]
