-- ===== src/Database/Keeping.antt =====
-- What is kept in the table of transactions, whatever fails.
use mathlib.Core.Path.{subst}
use miningpool_observer.Prelude.{
  ◌≡◌, refl, sym, true, inl, inr, some, List, [], ◌∷◌, map, length, to_set, contains, is_some, eqb,
  ◌==◌, beq→eq, ℤ, list_eq, nat_eq, int_eq, Bool-cases, Option-cases, arith,
}
use miningpool_observer.Bitcoin.{Bytes}
use miningpool_observer.Model.{Transaction}
use miningpool_observer.Database.{
  TransactionTable, TransactionLaws, tags_of, merge_tags, insert_transactions,
}
use miningpool_observer.Database.Inserting.{tags_in, both, contains-both}

module _ (t : TransactionTable) (laws : TransactionLaws t) where
  -- Every row that was there is there, and has the tags that it had.
  abbrev pub Kept : t.Db → t.Db → Type 0
  Kept db db' =
      (k : Bytes)
      → (is_some (t.row db k) ≡ true → is_some (t.row db' k) ≡ true)
        × ((tag : ℤ)
            → contains tag (tags_in (t.row db k)) ≡ true
            → contains tag (tags_in (t.row db' k)) ≡ true)

  pub Kept-refl : (db db' : t.Db) → ((k : Bytes) → t.row db' k ≡ t.row db k) → Kept db db'
  Kept-refl db db' e k = (λ h. ground (arith, e k), λ tag h. ground (arith, e k))

  pub Kept-trans : (db db₁ db₂ : t.Db) → Kept db db₁ → Kept db₁ db₂ → Kept db db₂
  Kept-trans db db₁ db₂ h l k = (λ p. (l k).0 ((h k).0 p), λ tag p. (l k).1 tag ((h k).1 tag p))

  pub Kept-cast : (db db₁ db₂ : t.Db) → db₂ ≡ db₁ → Kept db db₁ → Kept db db₂
  Kept-cast db db₁ db₂ e = subst (Kept db) (sym e)

  -- An update to at least the tags of the row keeps them, and so does one that fails.
  pub update-Kept :
      (txid : Bytes) (stored tags : List ℤ) (db : t.Db)
      → tags_of (t.row db txid) ≡ some stored
      → ((tag : ℤ) → contains tag stored ≡ true → contains tag tags ≡ true)
      → Kept db (t.update_tags txid tags db).1
  update-Kept txid stored tags db s more k = elim (Bool-cases (t.update_tags txid tags db).0) [
    | inr u ↦ Kept-refl db (t.update_tags txid tags db).1 (laws.update_failed txid tags db u) k
    | inl u ↦
        let r = laws.update_row txid tags db u k in
        elim (Bool-cases (k == txid)) [
          | inr q ↦ (λ h. ground arith, λ tag h. ground arith)
          | inl q ↦
              let at_k =
                subst (λ j. tags_of (t.row db j) ≡ some stored) (sym (beq→eq k txid q)) s in
              elim (Option-cases (t.row db k)) [
                | inl e ↦ absurd (ground arith)
                | inr (old, e) ↦ (λ h. ground arith, λ tag h. ground (arith, more tag))
              ]
        ]
  ]

  merge_tags-Kept :
      (inserted : List Bytes) (txns : List Transaction) (db : t.Db)
      → Kept db (merge_tags t inserted txns db).1
  unfolding merge_tags
  merge_tags-Kept inserted [] db = Kept-refl db db (λ k. refl)
  merge_tags-Kept inserted (tx ∷ txns) db =
      let whole = (merge_tags t inserted (tx ∷ txns) db).1 in
      elim (Bool-cases (contains tx.txid inserted)) [
        | inl e ↦
            Kept-cast db (merge_tags t inserted txns db).1 whole (ground arith)
              (merge_tags-Kept inserted txns db)
        | inr e ↦ elim (Option-cases (t.select_tags tx.txid db)) [
          | inl s ↦ Kept-cast db db whole (ground arith) (Kept-refl db db (λ k. refl))
          | inr (stored, s) ↦ elim (Bool-cases (stored == tx.tags)) [
            | inl q ↦
                Kept-cast db (merge_tags t inserted txns db).1 whole (ground arith)
                  (merge_tags-Kept inserted txns db)
            | inr q ↦
                let tags = both stored tx.tags in
                let db₁ = (t.update_tags tx.txid tags db).1 in
                let updated : Kept db db₁ =
                  update-Kept tx.txid stored tags db (laws.select_row tx.txid db stored s)
                    (λ tag h. ground (arith, contains-both tag stored tx.tags)) in
                elim (Bool-cases (t.update_tags tx.txid tags db).0) [
                  | inl u ↦ Kept-cast db (merge_tags t inserted txns db₁).1 whole (ground arith) (
                      Kept-trans db db₁ (merge_tags t inserted txns db₁).1 updated
                        (merge_tags-Kept inserted txns db₁))
                  | inr u ↦ Kept-cast db db₁ whole (ground arith) updated
                ]
          ]
        ]
      ]

  -- Whether `insert_transactions` succeeds or leaves at an error half-way, no row is gone and no
  -- row has lost a tag.
  pub insert_transactions-Kept :
      (txns : List Transaction) (db : t.Db) → Kept db (insert_transactions t txns db).1
  unfolding insert_transactions
  insert_transactions-Kept txns db =
      let whole = (insert_transactions t txns db).1 in
      let db₁ = (t.insert_new txns db).1 in
      elim (Option-cases (t.insert_new txns db).0) [
        | inl e ↦
            Kept-cast db db₁ whole (ground arith) (Kept-refl db db₁ (laws.insert_failed txns db e))
        | inr (ids, e) ↦
            let inserted : Kept db db₁ = λ k.
              let r = laws.insert_row txns db ids e k in
              elim (Option-cases (t.row db k)) [
                | inl n ↦ (λ h. ground arith, λ tag h. absurd (ground arith))
                | inr (old, n) ↦ (λ h. ground arith, λ tag h. ground arith)
              ] in
            elim (Bool-cases
              (eqb (length (to_set ids)) (length (to_set (map (λ tx. tx.txid) txns))))) [
                | inl q ↦ Kept-cast db db₁ whole (ground arith) inserted
                | inr q ↦ Kept-cast db (merge_tags t ids txns db₁).1 whole (ground arith) (
                    Kept-trans db db₁ (merge_tags t ids txns db₁).1 inserted
                      (merge_tags-Kept ids txns db₁))
              ]
      ]
