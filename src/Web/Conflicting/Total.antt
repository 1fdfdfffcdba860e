-- ===== src/Web/Conflicting/Total.antt =====
-- The pages of conflicting transactions never panic, as long as the rows refer to stored
-- transactions.
use miningpool_observer.Prelude.{
  ◌≡◌, ◌≢◌, refl, ap, ◌∙◌, ℕ, true, inl, inr, List, [], ◌∷◌, ◌++◌, map, filter, All, All-mono,
  All-split, filter-All, contains, lookup, is_some, is_some-to_map, keys, beq_refl, ◌==◌, list_eq,
  nat_eq, int_eq, int_order, Option-cases, ℤ, arith,
}
use miningpool_observer.Prelude.Outcomes.{panicked, Outcome-cases}
use miningpool_observer.Bitcoin.{Bytes}
use miningpool_observer.Model.{Transaction, ConflictingTransaction}
use miningpool_observer.Web.{Block, Tables, load_first, order_desc}
use miningpool_observer.Web.Missing.Total.{contains-keys-filter}
use miningpool_observer.Web.Conflicting.{
  transactions_of, transaction_set, transaction_sets, tx_map, conflicting_txids, with_conflicts,
  blocks_with_conflicting_transactions, single_block_with_conflicting_transactions,
}

abbrev IsIn : List (Bytes × Transaction) → Bytes → Type 0
IsIn m k = is_some (lookup k m) ≡ true

-- Both lists of txids are in the map.
abbrev SetIn : List (Bytes × Transaction) → ConflictingTransaction → Type 0
SetIn m ct = All (IsIn m) ct.template_txids × All (IsIn m) ct.block_txids

transactions_of-total :
    (m : List (Bytes × Transaction)) (txids : List Bytes)
    → All (IsIn m) txids
    → is_some (transactions_of m txids) ≡ true
unfolding transactions_of
transactions_of-total m [] h = refl
transactions_of-total m (k ∷ ks) h = elim (Option-cases (lookup k m)) [
  | inl e ↦ absurd (ground (arith, h.0))
  | inr (tx, e) ↦ ground (arith, transactions_of-total m ks h.1)
]

transaction_sets-total :
    (m : List (Bytes × Transaction)) (cts : List ConflictingTransaction)
    → All (SetIn m) cts
    → is_some (transaction_sets m cts) ≡ true
unfolding transaction_sets transaction_set
transaction_sets-total m [] h = refl
transaction_sets-total m (ct ∷ cts) h = ground (
  arith,
  transactions_of-total m ct.template_txids h.0.0,
  transactions_of-total m ct.block_txids h.0.1,
  transaction_sets-total m cts h.1,
)

with_conflicts-total :
    {F32 Time : Type 0} (m : List (Bytes × Transaction)) (cts : List ConflictingTransaction)
    (blocks : List (Block F32 Time))
    → All (SetIn m) cts
    → is_some (with_conflicts m cts blocks) ≡ true
unfolding with_conflicts
with_conflicts-total m cts [] h = refl
with_conflicts-total m cts (b ∷ bs) h = ground (
  arith,
  transaction_sets-total m (filter (λ ct. ct.block_id == b.id) cts)
      (filter-All (SetIn m) (λ ct. ct.block_id == b.id) cts h),
  with_conflicts-total m cts bs h,
)

keys-txs : (txs : List Transaction) → keys (map (λ tx. (tx.txid, tx)) txs) ≡ map (λ tx. tx.txid) txs
keys-txs [] = refl
keys-txs (t ∷ ts) = ap (λ l. t.txid ∷ l) (keys-txs ts)

-- A stored transaction with a wanted txid is loaded.
loaded :
    (k : Bytes) (wanted : List Bytes) (txs : List Transaction)
    → contains k wanted ≡ true
    → contains k (map (λ t. t.txid) txs) ≡ true
    → IsIn (tx_map (filter (λ t. contains t.txid wanted) txs)) k
loaded k wanted txs h l =
    is_some-to_map k (map (λ t. (t.txid, t)) (filter (λ t. contains t.txid wanted) txs))
    ∙ ap (contains k) (keys-txs (filter (λ t. contains t.txid wanted) txs))
    ∙ contains-keys-filter (λ (t : Transaction). t.txid) k wanted txs h
    ∙ l

-- The row names stored transactions.
abbrev pub Stored : List Transaction → ConflictingTransaction → Type 0
Stored txs ct =
    All (λ k. contains k (map (λ t. t.txid) txs) ≡ true) ct.template_txids
    × All (λ k. contains k (map (λ t. t.txid) txs) ≡ true) ct.block_txids

All-wanted : (ks : List Bytes) → All (λ k. contains k ks ≡ true) ks
All-wanted [] = tt
All-wanted (k ∷ ks) = (
  ground (arith, beq_refl k),
  All-mono (λ j. contains j ks ≡ true) (λ j. contains j (k ∷ ks) ≡ true) ks (λ j h. ground arith)
      (All-wanted ks),
)

of_each :
    (P : Bytes → Type 0) (cts : List ConflictingTransaction)
    → All P (conflicting_txids cts)
    → All (λ ct. All P ct.template_txids × All P ct.block_txids) cts
of_each P [] h = tt
of_each P (ct ∷ cts) h =
    let (here, rest) =
      All-split P (ct.template_txids ++ ct.block_txids) (conflicting_txids cts) h in
    (All-split P ct.template_txids ct.block_txids here, of_each P cts rest)

sets_loaded :
    (wanted : List Bytes) (txs : List Transaction) (cts : List ConflictingTransaction)
    → All
        (λ ct.
          All (λ k. contains k wanted ≡ true) ct.template_txids
          × All (λ k. contains k wanted ≡ true) ct.block_txids)
        cts
    → All (Stored txs) cts
    → All (SetIn (tx_map (filter (λ t. contains t.txid wanted) txs))) cts
sets_loaded wanted txs [] h l = tt
sets_loaded wanted txs (ct ∷ cts) h l = (
  (all_loaded ct.template_txids h.0.0 l.0.0, all_loaded ct.block_txids h.0.1 l.0.1),
  sets_loaded wanted txs cts h.1 l.1,
)
  where
    all_loaded :
        (ks : List Bytes)
        → All (λ k. contains k wanted ≡ true) ks
        → All (λ k. contains k (map (λ t. t.txid) txs) ≡ true) ks
        → All (IsIn (tx_map (filter (λ t. contains t.txid wanted) txs))) ks
    all_loaded [] h l = tt
    all_loaded (k ∷ ks) h l = (loaded k wanted txs h.0 l.0, all_loaded ks h.1 l.1)

own_loaded :
    (txs : List Transaction) (cts : List ConflictingTransaction)
    → All (Stored txs) cts
    → All (SetIn (tx_map (filter (λ t. contains t.txid (conflicting_txids cts)) txs))) cts
own_loaded txs cts = sets_loaded (conflicting_txids cts) txs cts (
    of_each (λ k. contains k (conflicting_txids cts) ≡ true) cts
      (All-wanted (conflicting_txids cts)))

module _ {F32 Time : Type 0} (db : Tables F32 Time) where
  load_first-total : {A : Type 0} (n : ℕ) (rows : List A) → load_first db n rows ≢ panicked
  load_first-total n [] e = absurd (ground arith)
  load_first-total n (a ∷ rest) e = absurd (ground arith)

  single-total :
      (block_hash : Bytes)
      → All (Stored db.transactions) db.conflicting
      → single_block_with_conflicting_transactions db block_hash ≢ panicked
  unfolding single_block_with_conflicting_transactions
  single-total block_hash h e =
      let found = filter (λ (b : Block F32 Time). b.hash == block_hash) db.blocks in
      elim (Outcome-cases (load_first db 0 found)) [
        | inl p ↦ load_first-total 0 found p
        | inr (inl (err, p)) ↦ absurd (ground arith)
        | inr (inr (block, p)) ↦
            let cts =
              filter (λ (ct : ConflictingTransaction). ct.block_id == block.id) db.conflicting in
            let total = transaction_sets-total _ cts (
              own_loaded db.transactions cts
                (filter-All (Stored db.transactions) _ db.conflicting h)) in
            absurd (ground (arith, total))
      ]

  -- If every row of conflicting transactions names stored transactions, then
  -- neither page panics on an `unwrap`, whatever the database answers or refuses.
  pub conflicting_pages-total :
      (block_ids_on : ℕ → List ℤ) (total_block_count page : ℕ) (block_hash : Bytes)
      → All (Stored db.transactions) db.conflicting
      → (blocks_with_conflicting_transactions db block_ids_on total_block_count page ≢ panicked)
        × (single_block_with_conflicting_transactions db block_hash ≢ panicked)
  unfolding blocks_with_conflicting_transactions
  conflicting_pages-total block_ids_on count page block_hash h =
      let ids = block_ids_on page in
      let cts = filter (λ (ct : ConflictingTransaction). contains ct.block_id ids) db.conflicting in
      let m = tx_map (filter (λ t. contains t.txid (conflicting_txids cts)) db.transactions) in
      let all =
        with_conflicts-total m cts
          (order_desc int_order (λ (b : Block F32 Time). b.id)
            (filter (λ b. contains b.id ids) db.blocks))
          (own_loaded db.transactions cts
            (filter-All (Stored db.transactions) _ db.conflicting h)) in
      (λ e. ground (arith, all), single-total block_hash h)
