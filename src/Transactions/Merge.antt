-- ===== src/Transactions/Merge.antt =====
-- What `add_to_transactions` does to the map.
use miningpool_observer.Prelude.{
  ◌≡◌, false, ◌&&◌, ◌||◌, Option, none, some, List, [], ◌++◌, contains, lookup, lookup-insert,
  is_some, sort, dedup, contains-dedup-sort, any-append, ℤ, if◌then◌else◌, ◌==◌, list_eq, nat_eq,
  int_eq, int_order, Option-cases, Bool-cases, inl, inr, arith, beq→eq, beq_refl,
}
use miningpool_observer.Bitcoin.{Bytes}
use miningpool_observer.Model.{Transaction}
use miningpool_observer.Transactions.{Transactions, add_to_transactions}

-- The transaction that is kept for a txid.
abbrev pub kept : Option Transaction → Transaction → Transaction
kept none new = new
kept (some existing) new =
    if existing.tags == new.tags
    then existing
    else record existing { tags = dedup (sort (existing.tags ++ new.tags)) }

lookup-add_self :
    (k : Bytes) (new : Transaction) (m : Transactions)
    → k ≡ new.txid
    → lookup k (add_to_transactions new m) ≡ some (kept (lookup k m) new)
unfolding add_to_transactions
lookup-add_self k new m e = elim (Option-cases (lookup k m)) [
  | inl h ↦ ground (arith, lookup-insert new.txid k new m, beq_refl k)
  | inr (t, h) ↦ elim (Bool-cases (t.tags == new.tags)) [
    | inl q ↦ ground arith
    | inr q ↦
        let merged = record t { tags = dedup (sort (t.tags ++ new.tags)) } in
        ground (arith, lookup-insert new.txid k merged m, beq_refl k)
  ]
]

lookup-add_ne :
    (k : Bytes) (new : Transaction) (m : Transactions)
    → (k == new.txid) ≡ false
    → lookup k (add_to_transactions new m) ≡ lookup k m
unfolding add_to_transactions
lookup-add_ne k new m q = elim (Option-cases (lookup new.txid m)) [
  | inl h ↦ ground (arith, lookup-insert new.txid k new m)
  | inr (t, h) ↦
      let merged = record t { tags = dedup (sort (t.tags ++ new.tags)) } in
      ground (arith, lookup-insert new.txid k merged m)
]

-- Under the added txid stands what is kept of the old and the added transaction; all else stays.
pub lookup-add_to_transactions :
    (k : Bytes) (new : Transaction) (m : Transactions)
    → lookup k (add_to_transactions new m)
      ≡ (if k == new.txid then some (kept (lookup k m) new) else lookup k m)
lookup-add_to_transactions k new m = elim (Bool-cases (k == new.txid)) [
  | inl h ↦ rw h (lookup-add_self k new m (beq→eq k new.txid h))
  | inr h ↦ rw h (lookup-add_ne k new m h)
]

-- The tags of the transaction under a key.
abbrev pub tags_at : Bytes → Transactions → List ℤ
tags_at k transactions = elim (lookup k transactions) [ none ↦ [] | some t ↦ t.tags ]

contains-kept :
    (tag : ℤ) (o : Option Transaction) (new : Transaction)
    → contains tag (kept o new).tags
      ≡ contains tag new.tags || contains tag (elim o [ none ↦ [] | some t ↦ t.tags ])
contains-kept tag none new = ground arith
contains-kept tag (some t) new = elim (Bool-cases (t.tags == new.tags)) [
  | inl q ↦ ground (arith, beq→eq t.tags new.tags q)
  | inr q ↦ ground (
    arith,
    contains-dedup-sort tag (t.tags ++ new.tags),
    any-append (λ x. tag == x) t.tags new.tags,
  )
]

-- A txid is in the map after an addition exactly if it was or is the added one.
pub is_some-lookup-add :
    (k : Bytes) (new : Transaction) (m : Transactions)
    → is_some (lookup k (add_to_transactions new m)) ≡ (k == new.txid) || is_some (lookup k m)
is_some-lookup-add k new m = ground (arith, lookup-add_to_transactions k new m)

-- The tags under a key are those that were there, and under the added txid those of the added
-- transaction too: none is lost, whatever the order of the additions.
pub contains-tags_at-add :
    (tag : ℤ) (k : Bytes) (new : Transaction) (m : Transactions)
    → contains tag (tags_at k (add_to_transactions new m))
      ≡ ((k == new.txid) && contains tag new.tags) || contains tag (tags_at k m)
contains-tags_at-add tag k new m = elim (Bool-cases (k == new.txid)) [
  | inl h ↦ ground (arith, lookup-add_to_transactions k new m, contains-kept tag (lookup k m) new)
  | inr h ↦ ground (arith, lookup-add_to_transactions k new m)
]
