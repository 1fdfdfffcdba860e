-- ===== src/Database/Inserting.antt =====
-- What `insert_transactions` leaves in the table of transactions.
use mathlib.Core.Path.{subst}
use miningpool_observer.Prelude.{
  ◌≡◌, refl, sym, ◌∙◌, Bool, true, false, not, ◌&&◌, ◌||◌, inl, inr, none, some, Option, List, [],
  ◌∷◌, ◌++◌, any, any-append, contains, contains-to_set, contains-sort, to_set, sort, ◌==◌, beq→eq,
  beq_test, ℤ, list_eq, nat_eq, int_eq, int_order, Bool-cases, Option-cases, arith,
}
use miningpool_observer.Bitcoin.{Bytes}
use miningpool_observer.Model.{Transaction}
use miningpool_observer.Database.{TransactionTable, TransactionLaws, with_tags, tags_of, merge_tags}

-- The tags of a row, none without one.
abbrev pub tags_in : Option Transaction → List ℤ
tags_in none = []
tags_in (some t) = t.tags

-- A given transaction with this txid has the tag.
abbrev pub gives : ℤ → Bytes → List Transaction → Bool
gives tag k txns = any (λ t. k == t.txid && contains tag t.tags) txns

abbrev pub both : List ℤ → List ℤ → List ℤ
both stored tags = sort (to_set (stored ++ tags))

pub contains-both :
    (tag : ℤ) (stored tags : List ℤ)
    → contains tag (both stored tags) ≡ contains tag stored || contains tag tags
contains-both tag stored tags =
    contains-sort tag (to_set (stored ++ tags))
    ∙ contains-to_set tag (stored ++ tags)
    ∙ any-append (λ x. tag == x) stored tags

module _ (t : TransactionTable) (laws : TransactionLaws t) where
  -- Under this key, the row differs by the added tags alone.
  abbrev Tagged : (ℤ → Bool) → Bytes → t.Db → t.Db → Type 0
  Tagged added k db db' =
      (with_tags [] (t.row db' k) ≡ with_tags [] (t.row db k))
      × ((tag : ℤ)
          → contains tag (tags_in (t.row db' k)) ≡ contains tag (tags_in (t.row db k)) || added tag)

  update-Tagged :
      (tx : Transaction) (stored : List ℤ) (db : t.Db) (k : Bytes)
      → tags_of (t.row db tx.txid) ≡ some stored
      → (t.update_tags tx.txid (both stored tx.tags) db).0 ≡ true
      → Tagged
          (λ tag. k == tx.txid && contains tag tx.tags)
          k
          db
          (t.update_tags tx.txid (both stored tx.tags) db).1
  update-Tagged tx stored db k s u =
      let r = laws.update_row tx.txid (both stored tx.tags) db u k in
      elim (Bool-cases (k == tx.txid)) [
        | inl q ↦
            let at_k : tags_of (t.row db k) ≡ some stored =
              subst (λ j. tags_of (t.row db j) ≡ some stored) (sym (beq→eq k tx.txid q)) s in
            elim (Option-cases (t.row db k)) [
              | inl e ↦ absurd (ground arith)
              | inr (old, e) ↦
                  (ground arith, λ tag. ground (arith, contains-both tag stored tx.tags))
            ]
        | inr q ↦ (ground arith, λ tag. ground arith)
      ]

  Tagged-none :
      (added : ℤ → Bool) (k : Bytes) (db : t.Db)
      → ((tag : ℤ) → added tag ≡ true → contains tag (tags_in (t.row db k)) ≡ true)
      → Tagged added k db db
  Tagged-none added k db h = (refl, λ tag. ground (arith, h tag))

  Tagged-trans :
      (first second added : ℤ → Bool) (k : Bytes) (db db₁ db₂ : t.Db)
      → Tagged first k db db₁
      → Tagged second k db₁ db₂
      → ((tag : ℤ) → added tag ≡ first tag || second tag)
      → Tagged added k db db₂
  Tagged-trans first second added k db db₁ db₂ h l e =
      (l.0 ∙ h.0, λ tag. ground (arith, h.1 tag, l.1 tag, e tag))

  -- What the loop adds under a key.
  abbrev merged : List Bytes → List Transaction → Bytes → ℤ → Bool
  merged inserted txns k tag = not (contains k inserted) && gives tag k txns

  abbrev one : List Bytes → Transaction → Bytes → ℤ → Bool
  one inserted tx k tag = not (contains k inserted) && k == tx.txid && contains tag tx.tags

  merged-cons :
      (inserted : List Bytes) (tx : Transaction) (txns : List Transaction) (k : Bytes) (tag : ℤ)
      → merged inserted (tx ∷ txns) k tag ≡ one inserted tx k tag || merged inserted txns k tag
  merged-cons inserted tx txns k tag = ground arith

  skip_inserted :
      (inserted : List Bytes) (tx : Transaction) (k : Bytes) (db : t.Db)
      → contains tx.txid inserted ≡ true
      → Tagged (one inserted tx k) k db db
  skip_inserted inserted tx k db h = Tagged-none (one inserted tx k) k db (λ tag q.
      elim (Bool-cases (k == tx.txid)) [
        | inl e ↦ absurd (ground (arith, beq_test (λ j. contains j inserted) k tx.txid e))
        | inr e ↦ absurd (ground arith)
      ])

  skip_same :
      (inserted : List Bytes) (tx : Transaction) (k : Bytes) (db : t.Db)
      → tags_of (t.row db tx.txid) ≡ some tx.tags
      → Tagged (one inserted tx k) k db db
  skip_same inserted tx k db s = Tagged-none (one inserted tx k) k db (λ tag q.
      elim (Bool-cases (k == tx.txid)) [
        | inl e ↦
            let at_k : tags_of (t.row db k) ≡ some tx.tags =
              subst (λ j. tags_of (t.row db j) ≡ some tx.tags) (sym (beq→eq k tx.txid e)) s in
            elim (Option-cases (t.row db k)) [
              | inl n ↦ absurd (ground arith)
              | inr (old, n) ↦ ground arith
            ]
        | inr e ↦ absurd (ground arith)
      ])

  weaken :
      (inserted : List Bytes) (tx : Transaction) (k : Bytes) (db db' : t.Db)
      → contains tx.txid inserted ≡ false
      → Tagged (λ tag. k == tx.txid && contains tag tx.tags) k db db'
      → Tagged (one inserted tx k) k db db'
  weaken inserted tx k db db' h l = (
    l.0,
    λ tag. elim (Bool-cases (k == tx.txid)) [
      | inl e ↦ ground (arith, l.1 tag, beq_test (λ j. contains j inserted) k tx.txid e)
      | inr e ↦ ground (arith, l.1 tag)
    ],
  )

  merge_step :
      (inserted : List Bytes) (tx : Transaction) (txns : List Transaction) (k : Bytes)
      (db db₁ : t.Db) (r : Bool × t.Db)
      → Tagged (one inserted tx k) k db db₁
      → r ≡ merge_tags t inserted txns db₁
      → Tagged (merged inserted txns k) k db₁ (merge_tags t inserted txns db₁).1
      → Tagged (merged inserted (tx ∷ txns) k) k db r.1
  merge_step inserted tx txns k db db₁ r first e rest =
      subst (λ (r : Bool × t.Db). Tagged (merged inserted (tx ∷ txns) k) k db r.1) (sym e)
        (Tagged-trans (one inserted tx k) (merged inserted txns k) (merged inserted (tx ∷ txns) k) k
          db db₁ _ first rest (merged-cons inserted tx txns k))

  pub merge_tags-Tagged :
      (inserted : List Bytes) (txns : List Transaction) (db : t.Db) (k : Bytes)
      → (merge_tags t inserted txns db).0 ≡ true
      → Tagged (merged inserted txns k) k db (merge_tags t inserted txns db).1
  unfolding merge_tags
  merge_tags-Tagged inserted [] db k h = Tagged-none _ k db (λ tag q. absurd (ground arith))
  merge_tags-Tagged inserted (tx ∷ txns) db k h =
      let whole = merge_tags t inserted (tx ∷ txns) db in
      elim (Bool-cases (contains tx.txid inserted)) [
        | inl e ↦
            merge_step inserted tx txns k db db whole (skip_inserted inserted tx k db e)
              (ground arith) (merge_tags-Tagged inserted txns db k (ground arith))
        | inr e ↦ elim (Option-cases (t.select_tags tx.txid db)) [
          | inl s ↦ absurd (ground arith)
          | inr (stored, s) ↦ elim (Bool-cases (stored == tx.tags)) [
            | inl q ↦
                let row = laws.select_row tx.txid db stored s in
                let same =
                  subst (λ l. tags_of (t.row db tx.txid) ≡ some l) (beq→eq stored tx.tags q) row in
                merge_step inserted tx txns k db db whole (skip_same inserted tx k db same)
                  (ground arith) (merge_tags-Tagged inserted txns db k (ground arith))
            | inr q ↦ elim (Bool-cases (t.update_tags tx.txid (both stored tx.tags) db).0) [
              | inl u ↦
                  let db₁ = (t.update_tags tx.txid (both stored tx.tags) db).1 in
                  merge_step inserted tx txns k db db₁ whole
                    (weaken inserted tx k db _ e
                      (update-Tagged tx stored db k (laws.select_row tx.txid db stored s) u))
                    (ground arith) (merge_tags-Tagged inserted txns db₁ k (ground arith))
              | inr u ↦ absurd (ground arith)
            ]
          ]
        ]
      ]
