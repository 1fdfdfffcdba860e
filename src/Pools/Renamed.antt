-- ===== src/Pools/Renamed.antt =====
-- Which blocks get a new pool name, and which.
use mathlib.Core.Path.{subst}
use miningpool_observer.Prelude.{
  ◌≡◌, refl, sym, ap, ◌∙◌, ◌⊎◌, Bool, true, false, inl, inr, some, List, [], ◌∷◌, reverse, ◌==◌,
  beq→eq, ℤ, int_eq, Bool-cases, Option-cases, arith,
}
use miningpool_observer.Bitcoin.{Text, BlockHash, BitcoinBlock}
use miningpool_observer.Pools.{
  UnknownBlock, BlockTable, BlockLaws, PoolLookup, retry_blocks, retry_unknown_pool_identification,
}

-- A block with this id and hash is identified as mined by a pool with this name.
abbrev pub Identifies : PoolLookup → UnknownBlock → Text → Type 0
Identifies p block name =
    (hash : BlockHash) × (p.hash_from_slice (reverse block.hash) ≡ some hash)
    × (bitcoin_block : BitcoinBlock) × (p.get_block hash ≡ some bitcoin_block)
    × (p.identify_pool bitcoin_block ≡ some name)

-- One of the blocks has the id and is identified.
abbrev pub IdentifiedAmong : PoolLookup → ℤ → Text → List UnknownBlock → Type 0
IdentifiedAmong p id name [] = ⊥
IdentifiedAmong p id name (block ∷ blocks) =
    ((block.id ≡ id) × Identifies p block name) ⊎ IdentifiedAmong p id name blocks

module _ (p : PoolLookup) (t : BlockTable) (laws : BlockLaws t) where
  abbrev pub Explained : ℤ → List UnknownBlock → t.Db → t.Db → Type 0
  Explained id blocks db db' =
      (t.pool_name db' id ≡ t.pool_name db id)
      ⊎ ((name : Text) × (t.pool_name db' id ≡ some name) × IdentifiedAmong p id name blocks)

  later :
      (id : ℤ) (block : UnknownBlock) (blocks : List UnknownBlock) (db db₁ : t.Db)
      → db₁ ≡ retry_blocks p t blocks db
      → Explained id blocks db (retry_blocks p t blocks db)
      → Explained id (block ∷ blocks) db db₁
  later id block blocks db db₁ e (inl same) = inl (ap (λ d. t.pool_name d id) e ∙ same)
  later id block blocks db db₁ e (inr (name, has, among)) =
      inr (name, ap (λ d. t.pool_name d id) e ∙ has, inr among)

  updated :
      (id : ℤ) (block : UnknownBlock) (name : Text) (db : t.Db)
      → let db' = (t.update_pool_name_with_block_id block.id name db).1 in
        (t.pool_name db' id ≡ t.pool_name db id)
        ⊎ ((t.pool_name db' id ≡ some name) × (block.id ≡ id))
  updated id block name db =
      elim (Bool-cases (t.update_pool_name_with_block_id block.id name db).0) [
        | inr u ↦ inl (laws.update_failed block.id name db u id)
        | inl u ↦
            let r = laws.update_name block.id name db u id in
            elim (Bool-cases (id == block.id)) [
              | inr q ↦ inl (ground arith)
              | inl q ↦ elim (Option-cases (t.pool_name db id)) [
                | inl n ↦ inl (ground arith)
                | inr (old, n) ↦ inr (ground arith, sym (beq→eq id block.id q))
              ]
            ]
      ]

  retry_blocks-Explained :
      (id : ℤ) (blocks : List UnknownBlock) (db : t.Db)
      → Explained id blocks db (retry_blocks p t blocks db)
  unfolding retry_blocks
  retry_blocks-Explained id [] db = inl refl
  retry_blocks-Explained id (block ∷ blocks) db =
      let whole = retry_blocks p t (block ∷ blocks) db in
      elim (Option-cases (p.hash_from_slice (reverse block.hash))) [
        | inl e ↦
            later id block blocks db whole (ground arith) (retry_blocks-Explained id blocks db)
        | inr (hash, e) ↦ elim (Option-cases (p.get_block hash)) [
          | inl g ↦ let same : whole ≡ db = ground arith in inl (ap (λ d. t.pool_name d id) same)
          | inr (bitcoin_block, g) ↦ elim (Option-cases (p.identify_pool bitcoin_block)) [
            | inl i ↦
                later id block blocks db whole (ground arith) (retry_blocks-Explained id blocks db)
            | inr (name, i) ↦
                let db₁ = (t.update_pool_name_with_block_id block.id name db).1 in
                let same : whole ≡ retry_blocks p t blocks db₁ = ground arith in
                let to_whole = ap (λ d. t.pool_name d id) same in
                elim (retry_blocks-Explained id blocks db₁) [
                  | inr (other, has, among) ↦ inr (other, to_whole ∙ has, inr among)
                  | inl kept ↦ elim (updated id block name db) [
                    | inl unchanged ↦ inl (to_whole ∙ kept ∙ unchanged)
                    | inr (has, this) ↦
                        inr
                          (name, to_whole ∙ kept ∙ has, inl (this, (hash, e, bitcoin_block, g, i)))
                  ]
                ]
          ]
        ]
      ]

  -- The second try changes the pool of a block only to the name that the identification gives for
  -- the block with this hash, and only of blocks that the database listed as unknown; every other
  -- block keeps its pool, whatever fails on the way.
  pub retry_unknown_pool_identification-Explained :
      (connected : Bool) (db : t.Db) (id : ℤ)
      → (t.pool_name (retry_unknown_pool_identification p t connected db) id ≡ t.pool_name db id)
        ⊎ ((blocks : List UnknownBlock) × (t.unknown_pool_blocks db ≡ some blocks)
            × Explained id blocks db (retry_unknown_pool_identification p t connected db))
  unfolding retry_unknown_pool_identification
  retry_unknown_pool_identification-Explained false db id = inl refl
  retry_unknown_pool_identification-Explained true db id =
      elim (Option-cases (t.unknown_pool_blocks db)) [
        | inl e ↦
            let same : retry_unknown_pool_identification p t true db ≡ db = ground arith in
            inl (ap (λ d. t.pool_name d id) same)
        | inr (blocks, e) ↦
            let same : retry_unknown_pool_identification p t true db ≡ retry_blocks p t blocks db =
              ground arith in
            inr (
              blocks,
              e,
              subst (Explained id blocks db) (sym same) (retry_blocks-Explained id blocks db),
            )
      ]
