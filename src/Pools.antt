-- ===== src/Pools.antt =====
-- daemon/src/main.rs: the data set for the identification of pools, its updates, and the second try
-- on blocks whose pool is unknown.
pub mod Datasets
pub mod Renamed
use miningpool_observer.Prelude.{
  ◌≡◌, ◌==◌, int_eq, if◌then◌else◌, ℕ, Bool, true, false, Option, none, some, List, [], ◌∷◌,
  reverse, leb, ℤ,
}
use miningpool_observer.Prelude.Outcomes.{Outcome, returned, failed, ok_or, ◌>>=◌}
use miningpool_observer.Bitcoin.{Bytes, Text, BlockHash, BitcoinBlock}
use miningpool_observer.Addresses.{Response}
use miningpool_observer.Database.{and_then}

pub data UpdatePoolIdentificationDatasetError : Type 0 where
  min_req http parse_error : UpdatePoolIdentificationDatasetError

module _ {Pool : Type 0} (parse_json : Text → Option (List Pool)) where
  unfoldable pub load_pool_identification_dataset :
      Option Response → Outcome UpdatePoolIdentificationDatasetError (List Pool)
  load_pool_identification_dataset sent = do
    response ← ok_or min_req sent
    elim (leb 400 response.status_code) [
      | true ↦ failed http
      | false ↦ ok_or min_req response.as_str >>= λ body. ok_or parse_error (parse_json body)
    ]

  -- The lock is taken and the pools are replaced only by a data set that was loaded.
  unfoldable pub update_pools : Option Response → List Pool → List Pool
  unfolding load_pool_identification_dataset
  update_pools sent pools = elim (load_pool_identification_dataset sent) [
    | returned new_pools ↦ new_pools
    | _ ↦ pools
  ]

  -- The update at the start and the turns of the thread, for the responses that they get.
  unfoldable pub start_pool_identification_update_thread :
      List (Option Response) → List Pool → List Pool
  unfolding update_pools
  start_pool_identification_update_thread [] pools = pools
  start_pool_identification_update_thread (sent ∷ later) pools =
      start_pool_identification_update_thread later (update_pools sent pools)

-- A block of the table, as far as the thread reads it. Its hash is in display order.
pub record UnknownBlock : Type 0 where
  pub id : ℤ
  pub hash : Bytes

-- The table of blocks.
pub record BlockTable : Type 1 where
  pub Db : Type 0
  pub pool_name : Db → ℤ → Option Text
  pub unknown_pool_blocks : Db → Option (List UnknownBlock)
  pub update_pool_name_with_block_id : ℤ → Text → Db → Bool × Db

abbrev pub renamed : Text → Option Text → Option Text
renamed name none = none
renamed name (some old) = some name

-- `UPDATE block SET pool_name = $2 WHERE id = $1`. A failed statement changes nothing.
pub record BlockLaws (t : BlockTable) : Type 0 where
  pub update_failed :
      (id : ℤ) (name : Text) (db : t.Db)
      → (t.update_pool_name_with_block_id id name db).0 ≡ false
      → (j : ℤ) → t.pool_name (t.update_pool_name_with_block_id id name db).1 j ≡ t.pool_name db j
  pub update_name :
      (id : ℤ) (name : Text) (db : t.Db)
      → (t.update_pool_name_with_block_id id name db).0 ≡ true
      → (j : ℤ)
      → t.pool_name (t.update_pool_name_with_block_id id name db).1 j
        ≡ (if j == id then renamed name (t.pool_name db j) else t.pool_name db j)

-- The hashes crate, the node and the identification of pools, by the name of the pool.
pub record PoolLookup : Type 0 where
  pub hash_from_slice : Bytes → Option BlockHash
  pub get_block : BlockHash → Option BitcoinBlock
  pub identify_pool : BitcoinBlock → Option Text

module _ (p : PoolLookup) (t : BlockTable) where
  -- The loop: a bad hash or a failed update goes on with the next block, a failed request ends it.
  unfoldable pub retry_blocks : List UnknownBlock → t.Db → t.Db
  retry_blocks [] db = db
  retry_blocks (block ∷ blocks) db = elim (p.hash_from_slice (reverse block.hash)) [
    | none ↦ retry_blocks blocks db
    | some hash ↦ elim (p.get_block hash) [
      | none ↦ db
      | some bitcoin_block ↦ elim (p.identify_pool bitcoin_block) [
        | none ↦ retry_blocks blocks db
        | some name ↦ retry_blocks blocks (t.update_pool_name_with_block_id block.id name db).1
      ]
    ]
  ]

  unfoldable pub retry_unknown_pool_identification : Bool → t.Db → t.Db
  unfolding retry_blocks
  retry_unknown_pool_identification connected db = elim connected [
    | false ↦ db
    | true ↦ elim (t.unknown_pool_blocks db) [ none ↦ db | some blocks ↦ retry_blocks blocks db ]
  ]
