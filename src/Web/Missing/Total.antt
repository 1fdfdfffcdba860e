-- ===== src/Web/Missing/Total.antt =====
-- The page of missing transactions never panics: what its `unwrap`s ask for is there.
use miningpool_observer.Prelude.{
  PartialEq, ◌≡◌, ◌≢◌, refl, ap, ◌∙◌, ℕ, Bool, true, inl, inr, some, List, [], ◌∷◌, map, filter,
  reverse, All, All-mono, any, any-reverse, any-sort_by_key, any-map, contains, lookup, is_some,
  is_some-to_map, keys, sort_by_key, ◌==◌, beq_test, beq_comm, beq_refl, ℤ, int_order, int_eq,
  list_eq, nat_eq, Bool-cases, Option-cases, arith, filter-All, filter-passes,
}
use miningpool_observer.Prelude.Outcomes.{panicked}
use miningpool_observer.Bitcoin.{Bytes}
use miningpool_observer.Model.{Transaction, TransactionOnlyInTemplate}
use miningpool_observer.Web.{Block, Tables}
use miningpool_observer.Web.Missing.{
  MissingTransactionBlockInfo, MissingTransaction, max?, max_height, block_info, block_infos,
  block_map, missing_from, missing_txns, assemble, missing_transactions,
}

max_some : (hs : List ℤ) → is_some (max? hs) ≡ any (λ h. true) hs
max_some [] = refl
max_some (h ∷ hs) = refl

abbrev of_tx : Transaction → List TransactionOnlyInTemplate → List TransactionOnlyInTemplate
of_tx tx rows = filter (λ r. r.transaction_txid == tx.txid) rows

module _ {F32 Time : Type 0} (zero_f32 : F32) where
  keys-block_map :
      (blocks : List (Block F32 Time)) → keys (map (λ b. (b.id, b)) blocks) ≡ map (λ b. b.id) blocks
  keys-block_map [] = refl
  keys-block_map (b ∷ bs) = ap (λ l. b.id ∷ l) (keys-block_map bs)

  lookup-block_map :
      (id : ℤ) (blocks : List (Block F32 Time))
      → is_some (lookup id (block_map zero_f32 blocks)) ≡ contains id (map (λ b. b.id) blocks)
  lookup-block_map id blocks =
      is_some-to_map id (map (λ b. (b.id, b)) blocks) ∙ ap (contains id) (keys-block_map blocks)

  -- The block is loaded.
  abbrev Loaded : List (ℤ × Block F32 Time) → TransactionOnlyInTemplate → Type 0
  Loaded m row = is_some (lookup row.block_id m) ≡ true

  is_some-block_info :
      (m : List (ℤ × Block F32 Time)) (row : TransactionOnlyInTemplate)
      → is_some (block_info zero_f32 m row) ≡ is_some (lookup row.block_id m)
  unfolding block_info
  is_some-block_info m row = ground arith

  -- There are infos for all rows, none only for no rows.
  block_infos-total :
      (m : List (ℤ × Block F32 Time)) (rows : List TransactionOnlyInTemplate)
      → All (Loaded m) rows
      → (infos : List (MissingTransactionBlockInfo F32 Time)) × (block_infos zero_f32 m rows
          ≡ some infos)
        × (any (λ i. true) infos ≡ any (λ r. true) rows)
  unfolding block_infos
  block_infos-total m [] h = ([], refl, refl)
  block_infos-total m (row ∷ rows) h =
      let (infos, e, same) = block_infos-total m rows h.1 in
      elim (Option-cases (block_info zero_f32 m row)) [
        | inl n ↦ absurd (ground (arith, is_some-block_info m row))
        | inr (info, n) ↦ (info ∷ infos, ground arith, refl)
      ]

  missing_from-total :
      (m : List (ℤ × Block F32 Time)) (rows : List TransactionOnlyInTemplate) (tx : Transaction)
      → All (Loaded m) rows
      → (missing : MissingTransaction F32 Time) × (missing_from zero_f32 m rows tx ≡ some missing)
        × (is_some (max_height missing) ≡ any (λ r. true) rows)
  unfolding missing_from max_height
  missing_from-total m rows tx h =
      let (infos, e, same) = block_infos-total m rows h in
      let sorted = sort_by_key (λ b. b.height) infos in
      (
        record { transaction = tx; blocks = reverse sorted },
        ground arith,
        max_some (map (λ b. b.height) (reverse sorted))
            ∙ any-map (λ x. true) (λ b. b.height) (reverse sorted)
            ∙ any-reverse (λ x. true) sorted
            ∙ any-sort_by_key (λ b. b.height) (λ x. true) infos
            ∙ same,
      )

  missing_txns-total :
      (m : List (ℤ × Block F32 Time)) (rows : List TransactionOnlyInTemplate)
      (txs : List Transaction)
      → All (Loaded m) rows
      → All (λ tx. any (λ r. true) (of_tx tx rows) ≡ true) txs
      → is_some (missing_txns zero_f32 m rows txs) ≡ true
  unfolding missing_txns
  missing_txns-total m rows [] h k = refl
  missing_txns-total m rows (tx ∷ txs) h k =
      let (missing, e, same) =
        missing_from-total m (of_tx tx rows) tx (filter-All (Loaded m) _ rows h) in
      let rest = missing_txns-total m rows txs h k.1 in
      elim (Option-cases (max_height missing)) [
        | inl n ↦ absurd (ground (arith, k.0))
        | inr (height, n) ↦ ground (arith, rest)
      ]

  assemble-total :
      (txs : List Transaction) (rows : List TransactionOnlyInTemplate)
      (blocks : List (Block F32 Time))
      → All (Loaded (block_map zero_f32 blocks)) rows
      → All (λ tx. any (λ r. true) (of_tx tx rows) ≡ true) txs
      → is_some (assemble zero_f32 txs rows blocks) ≡ true
  unfolding assemble
  assemble-total [] rows blocks h k =
      ground (arith, missing_txns-total (block_map zero_f32 blocks) rows [] h k)
  assemble-total (tx ∷ []) rows blocks h k =
      let (missing, e, same) =
        missing_from-total (block_map zero_f32 blocks) (of_tx tx rows) tx
          (filter-All (Loaded (block_map zero_f32 blocks)) _ rows h) in
      ground arith
  assemble-total (tx ∷ tx' ∷ txs) rows blocks h k =
      ground (arith, missing_txns-total (block_map zero_f32 blocks) rows (tx ∷ tx' ∷ txs) h k)

-- What a filter on the keys leaves of the keys.
pub contains-keys-filter :
    {K A : Type 0} ⦃e : PartialEq K⦄ (f : A → K) (k : K) (wanted : List K) (xs : List A)
    → contains k wanted ≡ true
    → contains k (map f (filter (λ x. contains (f x) wanted) xs)) ≡ contains k (map f xs)
contains-keys-filter f k wanted [] h = refl
contains-keys-filter f k wanted (x ∷ xs) h = elim (Bool-cases (contains (f x) wanted)) [
  | inl q ↦ rw q (ground (arith, contains-keys-filter f k wanted xs h))
  | inr q ↦ rw q (
      ground
        (arith, contains-keys-filter f k wanted xs h, beq_test (λ j. contains j wanted) k (f x)))
]

members_contained :
    {A : Type 0} {K : Type 0} ⦃e : PartialEq K⦄ (f : A → K) (xs : List A)
    → All (λ x. contains (f x) (map f xs) ≡ true) xs
members_contained f [] = tt
members_contained f (x ∷ xs) = (
  ground (arith, beq_refl (f x)),
  All-mono (λ y. contains (f y) (map f xs) ≡ true) (λ y. contains (f y) (map f (x ∷ xs)) ≡ true) xs
      (λ y h. ground arith) (members_contained f xs),
)

-- What holds of all holds of one that is among them.
All-contains :
    {K : Type 0} ⦃e : PartialEq K⦄ (p : K → Bool) (a : K) (xs : List K)
    → All (λ x. p x ≡ true) xs
    → contains a xs ≡ true
    → p a ≡ true
All-contains p a [] h k = absurd (ground arith)
All-contains p a (x ∷ xs) h k = elim (Bool-cases (a == x)) [
  | inl q ↦ beq_test p a x q ∙ h.0
  | inr q ↦ All-contains p a xs h.1 (ground arith)
]

abbrev wanted_rows : List Bytes → List TransactionOnlyInTemplate → List TransactionOnlyInTemplate
wanted_rows txids rows = filter (λ r. contains r.transaction_txid txids) rows

has_row :
    (tx : Transaction) (txids : List Bytes) (rows : List TransactionOnlyInTemplate)
    → contains tx.txid txids ≡ true
    → contains tx.txid (map (λ r. r.transaction_txid) rows) ≡ true
    → any (λ r. true) (of_tx tx (wanted_rows txids rows)) ≡ true
has_row tx txids [] h k = absurd (ground arith)
has_row tx txids (r ∷ rows) h k = elim (Bool-cases (tx.txid == r.transaction_txid)) [
  | inl q ↦ ground (
    arith,
    beq_comm tx.txid r.transaction_txid,
    beq_test (λ j. contains j txids) tx.txid r.transaction_txid q,
  )
  | inr q ↦
      let rest = has_row tx txids rows h (ground arith) in
      elim (Bool-cases (contains r.transaction_txid txids)) [
        | inl w ↦ ground (arith, rest, beq_comm tx.txid r.transaction_txid)
        | inr w ↦ ground (arith, rest)
      ]
]

module _ {F32 Time : Type 0} (zero_f32 : F32) (blocks : List (Block F32 Time)) (ids : List ℤ) where
  Loaded-rows :
      (rows : List TransactionOnlyInTemplate)
      → All (λ r. contains r.block_id (map (λ b. b.id) blocks) ≡ true) rows
      → All (λ r. contains r.block_id ids ≡ true) rows
      → All (Loaded zero_f32 (block_map zero_f32 (filter (λ b. contains b.id ids) blocks))) rows
  Loaded-rows [] h k = tt
  Loaded-rows (r ∷ rows) h k = (
    lookup-block_map zero_f32 r.block_id (filter (λ b. contains b.id ids) blocks)
        ∙ contains-keys-filter (λ (b : Block F32 Time). b.id) r.block_id ids blocks k.0
        ∙ h.0,
    Loaded-rows rows h.1 k.1,
  )

-- If the rows refer to blocks of the table, and the query gives txids that have rows, then the page
-- is shown or the database has refused a query: none of its `unwrap`s panics.
pub missing_transactions-total :
    {F32 Time : Type 0} (zero_f32 : F32) (db : Tables F32 Time) (total_missing_count : ℕ)
    (txids_on : ℕ → List Bytes) (page : ℕ)
    → All (λ r. contains r.block_id (map (λ b. b.id) db.blocks) ≡ true) db.only_in_template
    → All
        (λ k. contains k (map (λ r. r.transaction_txid) db.only_in_template) ≡ true)
        (txids_on page)
    → missing_transactions zero_f32 db total_missing_count txids_on page ≢ panicked
unfolding missing_transactions
missing_transactions-total zero_f32 db count txids_on page fk found =
    let txids = txids_on page in
    let rows = wanted_rows txids db.only_in_template in
    let ids = map (λ (r : TransactionOnlyInTemplate). r.block_id) rows in
    let blocks = filter (λ b. contains b.id ids) db.blocks in
    let txs = filter (λ (t : Transaction). contains t.txid txids) db.transactions in
    let total =
      assemble-total zero_f32 txs rows blocks
        (Loaded-rows zero_f32 db.blocks ids rows
          (filter-All (λ r. contains r.block_id (map (λ b. b.id) db.blocks) ≡ true) _
            db.only_in_template fk)
          (members_contained (λ r. r.block_id) rows))
        (All-mono (λ (t : Transaction). contains t.txid txids ≡ true)
          (λ t. any (λ r. true) (of_tx t rows) ≡ true) txs
          (λ t h. has_row t txids db.only_in_template h (
            All-contains (λ k. contains k (map (λ r. r.transaction_txid) db.only_in_template))
              t.txid txids found h))
          (filter-passes (λ t. contains t.txid txids) db.transactions)) in
    λ h. ground (arith, total)
