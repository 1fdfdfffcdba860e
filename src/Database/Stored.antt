-- ===== src/Database/Stored.antt =====
-- What the table of transactions has after `insert_transactions`.
use mathlib.Core.Path.{subst}
use miningpool_observer.Prelude.{
  ◌≡◌, refl, sym, ap, ◌∙◌, true, false, not, ◌&&◌, ◌||◌, inl, inr, some, List, [], ◌∷◌, map, length,
  contains, contains-to_set, to_set, to_set-Distinct, Distinct, contains_of_same_length, is_some,
  eqb, ◌==◌, beq_test, ℤ, list_eq, nat_eq, int_eq, Bool-cases, Option-cases, arith,
}
use miningpool_observer.Bitcoin.{Bytes}
use miningpool_observer.Model.{Transaction}
use miningpool_observer.Database.{
  TransactionTable, TransactionLaws, with_tags, find_tx, or_else, merge_tags, insert_transactions,
}
use miningpool_observer.Database.Inserting.{tags_in, gives, merge_tags-Tagged}

abbrev pub txids_of : List Transaction → List Bytes
txids_of txns = map (λ tx. tx.txid) txns

pub is_some-find_tx :
    (k : Bytes) (txns : List Transaction) → is_some (find_tx k txns) ≡ contains k (txids_of txns)
is_some-find_tx k [] = refl
is_some-find_tx k (tx ∷ txns) = ground (arith, is_some-find_tx k txns)

gives_none :
    (tag : ℤ) (k : Bytes) (txns : List Transaction)
    → contains k (txids_of txns) ≡ false
    → gives tag k txns ≡ false
gives_none tag k [] h = refl
gives_none tag k (tx ∷ txns) h = ground (arith, gives_none tag k txns)

-- Where each txid is there once, what is given for it is what the first transaction has.
gives-find_tx :
    (tag : ℤ) (k : Bytes) (txns : List Transaction)
    → Distinct (txids_of txns)
    → gives tag k txns ≡ contains tag (tags_in (find_tx k txns))
gives-find_tx tag k [] d = refl
gives-find_tx tag k (tx ∷ txns) d = elim (Bool-cases (k == tx.txid)) [
  | inl e ↦
      let others = gives_none tag k txns in
      ground (arith, others, beq_test (λ j. contains j (txids_of txns)) k tx.txid e)
  | inr e ↦ ground (arith, gives-find_tx tag k txns d.1)
]

module _ (t : TransactionTable) (laws : TransactionLaws t) where
  -- Each transaction has its row, which differs from the old one, where there was one, at most by
  -- the tags; and the tags are the old ones and the given ones.
  abbrev pub Stored : List Transaction → t.Db → t.Db → Type 0
  Stored txns db db' =
      (k : Bytes)
      → (with_tags [] (t.row db' k) ≡ with_tags [] (or_else (t.row db k) (find_tx k txns)))
        × ((tag : ℤ)
            → contains tag (tags_in (t.row db' k))
              ≡ contains tag (tags_in (t.row db k)) || gives tag k txns)

  module _ (txns : List Transaction) (db : t.Db) (ids : List Bytes) (d : Distinct (txids_of txns))
      (e : (t.insert_new txns db).0 ≡ some ids) where
    abbrev inserted : t.Db
    inserted = (t.insert_new txns db).1

    ids_inserted :
        (k : Bytes) → contains k ids ≡ not (is_some (t.row db k)) && contains k (txids_of txns)
    ids_inserted k = ground (arith, laws.insert_ids txns db ids e k, is_some-find_tx k txns)

    -- Equal counts: all are inserted.
    all_inserted :
        length (to_set ids) ≡ length (to_set (txids_of txns))
        → (k : Bytes) → contains k (txids_of txns) ≡ contains k ids
    all_inserted same k =
        sym (contains-to_set k (txids_of txns))
        ∙ contains_of_same_length (to_set ids) (to_set (txids_of txns)) k (to_set-Distinct ids)
            (to_set-Distinct (txids_of txns))
            (λ b h.
              ground
                (arith, contains-to_set b ids, contains-to_set b (txids_of txns), ids_inserted b))
            same
        ∙ contains-to_set k ids

    inserted-Stored :
        ((k : Bytes) → contains k (txids_of txns) ≡ contains k ids) → Stored txns db inserted
    inserted-Stored all k =
        let r = laws.insert_row txns db ids e k in
        (
          ap (with_tags []) r,
          λ tag. elim (Option-cases (t.row db k)) [
            | inl n ↦ ground (arith, gives-find_tx tag k txns d)
            | inr (old, n) ↦ ground (arith, all k, ids_inserted k, gives_none tag k txns)
          ],
        )

    merged-Stored :
        (merge_tags t ids txns inserted).0 ≡ true
        → Stored txns db (merge_tags t ids txns inserted).1
    merged-Stored h k =
        let r = laws.insert_row txns db ids e k in
        let m = merge_tags-Tagged t laws ids txns inserted k h in
        (
          m.0 ∙ ap (with_tags []) r,
          λ tag. elim (Option-cases (t.row db k)) [
            | inl n ↦
                ground (
                  arith,
                  m.1 tag,
                  ids_inserted k,
                  gives-find_tx tag k txns d,
                  gives_none tag k txns,
                )
            | inr (old, n) ↦ ground (arith, m.1 tag, ids_inserted k)
          ],
        )

  -- If `insert_transactions` succeeds, then each given transaction has its row; a row that was there
  -- keeps all of its values but the tags; and the tags of each row are those that it had and those
  -- of the given transaction, none lost and none made up. That
  -- nothing is merged when as many txids are inserted as given loses nothing. The given txids are
  -- distinct, as the keys of the map are that they come from.
  pub insert_transactions-Stored :
      (txns : List Transaction) (db : t.Db)
      → Distinct (map (λ tx. tx.txid) txns)
      → (insert_transactions t txns db).0 ≡ true
      → Stored txns db (insert_transactions t txns db).1
  unfolding insert_transactions
  insert_transactions-Stored txns db d h = elim (Option-cases (t.insert_new txns db).0) [
    | inl e ↦ absurd (ground arith)
    | inr (ids, e) ↦
        elim (Bool-cases (eqb (length (to_set ids)) (length (to_set (txids_of txns))))) [
          | inl q ↦
              becomes txns db _ _ (ground arith)
                (inserted-Stored txns db ids d e (all_inserted txns db ids d e (ground arith)))
          | inr q ↦
              becomes txns db _ _ (ground arith) (merged-Stored txns db ids d e (ground arith))
        ]
  ]
    where
      becomes :
          (txns : List Transaction) (db db₁ db₂ : t.Db)
          → db₂ ≡ db₁
          → Stored txns db db₁
          → Stored txns db db₂
      becomes txns db db₁ db₂ e = subst (Stored txns db) (sym e)
