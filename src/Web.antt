-- ===== src/Web.antt =====
-- The web server: web/src/model.rs, `Block` of shared/src/model.rs, and the pages and queries of
-- web/src/db.rs over the rows of the tables.
pub mod Paging
pub mod Missing
pub mod Conflicting
pub mod Sanctioned
pub mod Util
pub mod Handlers
use miningpool_observer.Prelude.{
  ℕ, suc, zero, ◌*◌, Bool, true, false, Option, none, some, List, [], ◌∷◌, map, filter, length, ℤ,
  contains, ◌==◌, list_eq, nat_eq, int_eq, if◌then◌else◌, sort_by_key, Order, int_order, reverse,
}
use miningpool_observer.Prelude.Floats.{float_of, float_div, ceil_as_u32}
use miningpool_observer.Prelude.Outcomes.{Outcome, returned, failed, ◌>>=◌}
use miningpool_observer.Bitcoin.{Bytes, Text}
use miningpool_observer.Model.{
  Transaction, TransactionOnlyInTemplate, TransactionOnlyInBlock, SanctionedTransactionInfo,
  ConflictingTransaction,
}
use miningpool_observer.Templates.{DebugTemplateSelectionInfo}

pub record Block (F32 Time : Type 0) : Type 0 where
  pub id : ℤ
  pub hash : Bytes
  pub prev_hash : Bytes
  pub height : ℤ
  pub tags : List ℤ
  pub missing_tx : ℤ
  pub extra_tx : ℤ
  pub shared_tx : ℤ
  pub sanctioned_missing_tx : ℤ
  pub equality : F32
  pub block_time : Time
  pub block_seen_time : Time
  pub block_tx : ℤ
  pub block_sanctioned : ℤ
  pub block_cb_value : ℤ
  pub block_cb_fees : ℤ
  pub block_weight : ℤ
  pub block_pkg_weights : List ℤ
  pub block_pkg_feerates : List F32
  pub pool_name : Text
  pub pool_link : Text
  pub pool_id_method : Text
  pub template_tx : ℤ
  pub template_time : Time
  pub template_sanctioned : ℤ
  pub template_cb_value : ℤ
  pub template_cb_fees : ℤ
  pub template_weight : ℤ
  pub template_pkg_weights : List ℤ
  pub template_pkg_feerates : List F32
  pub template_sigops : ℤ
  pub block_sigops : ℤ

-- A query of the page at hand that the database refuses.
pub data DbError : Type 0 where
  db_error : DbError

-- The rows of the tables, in the order in which the database gives them without an `ORDER BY`, the
-- order of the times, and whether the n-th query of a page is answered.
pub record Tables (F32 Time : Type 0) : Type 0 where
  pub blocks : List (Block F32 Time)
  pub transactions : List Transaction
  pub only_in_template : List TransactionOnlyInTemplate
  pub only_in_block : List TransactionOnlyInBlock
  pub sanctioned : List SanctionedTransactionInfo
  pub conflicting : List ConflictingTransaction
  pub debug : List (DebugTemplateSelectionInfo Time)
  pub time_order : Order Time
  pub answered : ℕ → Bool

abbrev pub load : {F32 Time A : Type 0} → Tables F32 Time → ℕ → A → Outcome DbError A
load db n rows = if db.answered n then returned rows else failed db_error

-- `first`: no row is an error.
abbrev pub load_first :
    {F32 Time : Type 0} {A : Type 0} → Tables F32 Time → ℕ → List A → Outcome DbError A
load_first db n rows =
    load db n rows >>= λ found. elim found [ [] ↦ failed db_error | a ∷ _ ↦ returned a ]

abbrev pub max_blocks_per_page : ℕ
max_blocks_per_page = 25

abbrev pub max_utxoset_scans_per_page : ℕ
max_utxoset_scans_per_page = 100

abbrev pub drop {ℓ} : {A : Type ℓ} → ℕ → List A → List A
drop zero xs = xs
drop (suc n) [] = []
drop (suc n) (x ∷ xs) = drop n xs

abbrev pub take {ℓ} : {A : Type ℓ} → ℕ → List A → List A
take zero xs = []
take (suc n) [] = []
take (suc n) (x ∷ xs) = x ∷ take n xs

abbrev pub descending : {K : Type 0} → Order K → Order K
descending o = record {
  le = λ a b. o.le b a;
  le_total = λ a b h. o.le_total b a h;
  le_trans = λ a b c h k. o.le_trans c b a k h;
  le_antisymm = λ a b h k. o.le_antisymm a b k h;
}

-- `order(key.desc())`. Rows with the same key stay as they are.
unfoldable pub order_desc : {A K : Type 0} → Order K → (A → K) → List A → List A
order_desc o key rows = sort_by_key ⦃o = descending o⦄ key rows

-- `limit(n).offset(n * page)`.
unfoldable pub page_of {ℓ} : {A : Type ℓ} → ℕ → ℕ → List A → List A
page_of n page rows = take n (drop (n * page) rows)

-- `(count as f32 / n as f32).ceil() as u32`.
unfoldable pub max_pages : ℕ → ℕ → ℕ
max_pages count n = ceil_as_u32 (float_div (float_of count) (float_of n))

module _ {F32 Time : Type 0} (db : Tables F32 Time) where
  -- `order(block_time.desc())`.
  abbrev pub newest_first : List (Block F32 Time) → List (Block F32 Time)
  newest_first rows = order_desc db.time_order (λ b. b.block_time) rows

  unfoldable pub blocks : ℕ → Outcome DbError (List (Block F32 Time) × ℕ)
  unfolding page_of max_pages order_desc
  blocks page = do
    on_page ← load db 0 (page_of max_blocks_per_page page (newest_first db.blocks))
    all ← load db 1 db.blocks
    returned (on_page, max_pages (length all) max_blocks_per_page)

  unfoldable pub blocks_by_pool : ℕ → Text → Outcome DbError (List (Block F32 Time) × ℕ)
  unfolding page_of max_pages order_desc
  blocks_by_pool page pool = do
    on_page ← load db 0 (
        page_of max_blocks_per_page page
          (newest_first (filter (λ b. b.pool_name == pool) db.blocks)))
    all ← load db 1 (filter (λ b. b.pool_name == pool) db.blocks)
    returned (on_page, max_pages (length all) max_blocks_per_page)

-- `block`: by its hash.
unfoldable pub block :
    {F32 Time : Type 0} → Tables F32 Time → Bytes → Outcome DbError (Block F32 Time)
block db block_hash = load_first db 0 (filter (λ b. b.hash == block_hash) db.blocks)
