-- ===== src/Web/Handlers.antt =====
-- web/src/handler.rs, and the routes of web/src/main.rs that lead to it.
pub mod Requests
use miningpool_observer.Prelude.{
  ℕ, Bool, true, false, not, ◌&&◌, ◌||◌, Option, none, some, List, [], ◌∷◌, filter, length,
  is_empty, map, ℤ, pos, int_le, if◌then◌else◌, ◌==◌, list_eq, nat_eq,
}
use miningpool_observer.Prelude.Outcomes.{Outcome, panicked, returned, failed, ok_or, ascii, ◌>>=◌}
use miningpool_observer.Bitcoin.{Bytes, Text}
use miningpool_observer.Tagging.{unwrap_or}
use miningpool_observer.Database.{SanctionedUtxoScanInfo}
use miningpool_observer.Web.{
  Block, DbError, Tables, load, load_first, max_utxoset_scans_per_page, page_of, newest_first,
  order_desc, max_pages, blocks, blocks_by_pool,
}
use miningpool_observer.Web.Missing.{
  MissingTransaction, missing_transactions, single_missing_transaction,
}
use miningpool_observer.Web.Conflicting.{
  ConflictingTransactionInfo, blocks_with_conflicting_transactions,
  single_block_with_conflicting_transactions,
}
use miningpool_observer.Web.Sanctioned.{
  BlockWithTx, MissingSanctionedTransaction, DebugTemplateSelectionInfosAndBlock, block_with_tx,
  missing_sanctioned_txns_for_block, debug_template_selection_infos,
}
use miningpool_observer.Web.Util.{
  HttpError, not_found, internal_server_error, parse_uint, parse_block_hash_str, parse_txid_str,
}

pub record AvgPoolFees (F64 : Type 0) : Type 0 where
  pub pool_name : Text
  pub count : ℤ
  pub median : F64
  pub q1 : F64
  pub q3 : F64

pub record PoolSanctionedTableEntry : Type 0 where
  pub pool_name : Text
  pub in_both : ℤ
  pub only_in_block : ℤ
  pub only_in_template : ℤ

-- What a page shows, by its template.
pub data View (F32 F64 Time : Type 0) : Type 0 where
  index_view : View F32 F64 Time
  templates_and_blocks_view : List (Block F32 Time) → ℕ → ℕ → Text → List Text → View F32 F64 Time
  template_and_block_view :
      BlockWithTx F32 Time → List MissingSanctionedTransaction → View F32 F64 Time
  sanctioned_missing_feed : List (Block F32 Time) → View F32 F64 Time
  missing_sanctioned_view : List (Block F32 Time) → ℕ → View F32 F64 Time
  missing_view : List (MissingTransaction F32 Time) → ℕ → ℕ → View F32 F64 Time
  single_missing_view : MissingTransaction F32 Time → View F32 F64 Time
  missing_feed : List (MissingTransaction F32 Time) → ℕ → ℕ → View F32 F64 Time
  conflicting_view : List (ConflictingTransactionInfo F32 Time) → ℕ → ℕ → View F32 F64 Time
  single_conflicting_view : ConflictingTransactionInfo F32 Time → View F32 F64 Time
  faq_view : SanctionedUtxoScanInfo Time → List Text → View F32 F64 Time
  debug_view : View F32 F64 Time
  debug_scans_view : List (SanctionedUtxoScanInfo Time) → ℕ → ℕ → View F32 F64 Time
  debug_unknown_view : List (Block F32 Time) → View F32 F64 Time
  debug_fees_view : List (AvgPoolFees F64) → View F32 F64 Time
  debug_selection_view :
      List (DebugTemplateSelectionInfosAndBlock F32 Time) → ℕ → ℕ → View F32 F64 Time
  debug_sanctioned_view : List PoolSanctionedTableEntry → View F32 F64 Time
  debug_sanctioned_feed : List (Block F32 Time) → View F32 F64 Time

pub data ContentType : Type 0 where
  html rss plain : ContentType

pub data Response : Type 0 where
  ok : ContentType → Text → Response
  -- `HttpResponse::NotFound().finish()`.
  not_found_page : Response

-- The server as a request finds it: the tables at the n-th query, the connections of the pool, the
-- templates, the crates, and the answers to the queries that are SQL text.
pub record Server (F32 F64 Time : Type 0) : Type 1 where
  pub db : ℕ → Tables F32 Time
  pub connection : ℕ → Bool
  pub render : View F32 F64 Time → Option Text
  pub hex_decode : Text → Option Bytes
  pub zero_f32 : F32
  pub debug_pages : Bool
  pub pools : Outcome DbError (List Text)
  pub missing_count : ℕ
  pub missing_txids : ℕ → List Bytes
  pub conflicting_ids : ℕ → List ℤ
  pub conflicting_count : ℕ
  pub debug_ids : ℕ → List ℤ
  pub debug_count : ℕ
  pub scan_infos : List (SanctionedUtxoScanInfo Time)
  pub sanctioned_addresses : List Text
  pub avg_fees_by_pool : Outcome DbError (List (AvgPoolFees F64))
  pub debug_sanctioned_table : Outcome DbError (List PoolSanctionedTableEntry)

-- `web::block(…).await?.map_err(ErrorInternalServerError)?`: a panic of the closure is an error of
-- the pool of threads.
abbrev pub web_block : {A : Type 0} → Outcome DbError A → Outcome HttpError A
web_block panicked = failed internal_server_error
web_block (failed e) = failed internal_server_error
web_block (returned a) = returned a

module _ {F32 F64 Time : Type 0} (s : Server F32 F64 Time) where
  -- `pool.get().expect(…)`, and the n-th query.
  abbrev pub query_db :
      {A : Type 0} → ℕ → (Tables F32 Time → Outcome DbError A) → Outcome HttpError A
  query_db n query = elim (s.connection n) [ false ↦ panicked | true ↦ web_block (query (s.db n)) ]

  abbrev pub page_with : ContentType → View F32 F64 Time → Outcome HttpError Response
  page_with content view =
      ok_or internal_server_error (s.render view) >>= λ body. returned (ok content body)

  -- `query.get(QUERY_PAGE)`.
  abbrev pub page_of_query : Option Text → Outcome HttpError ℕ
  page_of_query none = returned 0
  page_of_query (some query_page) = parse_uint query_page

  -- `order(end_time.desc())`.
  abbrev latest_first :
      Tables F32 Time → List (SanctionedUtxoScanInfo Time) → List (SanctionedUtxoScanInfo Time)
  latest_first db infos = order_desc db.time_order (λ i. i.end_time) infos

  unfoldable pub index : Outcome HttpError Response
  index = page_with html index_view

  unfoldable pub templates_and_blocks : Option Text → Option Text → Outcome HttpError Response
  templates_and_blocks query_page query_pool = do
    page ← page_of_query query_page
    let mining_pool = unwrap_or [] query_pool
    (on_page, pages) ←
        query_db 0 (λ db.
          if is_empty mining_pool then blocks db page else blocks_by_pool db page mining_pool)
    pools ← query_db 1 (λ db. s.pools)
    page_with html (templates_and_blocks_view on_page pages page mining_pool pools)

  unfoldable pub single_template_and_block : Text → Outcome HttpError Response
  single_template_and_block hash_str = do
    hash ← parse_block_hash_str s.hex_decode hash_str
    found ← query_db 0 (λ db. block_with_tx db hash)
    sanctioned ←
        (if int_le (pos 1) found.block.sanctioned_missing_tx
          then query_db 1 (λ db. missing_sanctioned_txns_for_block db hash)
          else returned [])
    page_with html (template_and_block_view found sanctioned)

  abbrev pub with_missing_sanctioned : Tables F32 Time → Outcome DbError (List (Block F32 Time))
  with_missing_sanctioned db =
      load db 0 (newest_first db (filter (λ b. int_le (pos 1) b.sanctioned_missing_tx) db.blocks))

  unfoldable pub missing_sanctioned_transactions_rss : Outcome HttpError Response
  missing_sanctioned_transactions_rss = do
    found ← query_db 0 with_missing_sanctioned
    page_with rss (sanctioned_missing_feed found)

  unfoldable pub missing_sanctioned : Outcome HttpError Response
  missing_sanctioned = do
    found ← query_db 0 with_missing_sanctioned
    page_with html (missing_sanctioned_view found (length found))

  abbrev pub missing_on : ℕ → Outcome HttpError (List (MissingTransaction F32 Time) × ℕ)
  missing_on page =
      query_db 0 (λ db. missing_transactions s.zero_f32 db s.missing_count s.missing_txids page)

  unfoldable pub missing_page : Option Text → Outcome HttpError Response
  missing_page query_page = do
    page ← page_of_query query_page
    (missing, pages) ← missing_on page
    page_with html (missing_view missing pages page)

  unfoldable pub missing_page_rss : Option Text → Outcome HttpError Response
  missing_page_rss query_page = do
    page ← page_of_query query_page
    (missing, pages) ← missing_on page
    page_with rss (missing_feed missing pages page)

  unfoldable pub single_missing_page : Text → Outcome HttpError Response
  single_missing_page txid_str = do
    txid ← parse_txid_str s.hex_decode txid_str
    missing ← query_db 0 (λ db. single_missing_transaction s.zero_f32 db txid)
    page_with html (single_missing_view missing)

  unfoldable pub conflicting_page : Option Text → Outcome HttpError Response
  conflicting_page query_page = do
    page ← page_of_query query_page
    (infos, pages) ←
        query_db 0
          (λ db. blocks_with_conflicting_transactions db s.conflicting_ids s.conflicting_count page)
    page_with html (conflicting_view infos pages page)

  unfoldable pub single_conflicting_page : Text → Outcome HttpError Response
  single_conflicting_page hash_str = do
    hash ← parse_block_hash_str s.hex_decode hash_str
    info ← query_db 0 (λ db. single_block_with_conflicting_transactions db hash)
    page_with html (single_conflicting_view info)

  unfoldable pub robots_txt : Outcome HttpError Response
  robots_txt = returned (ok plain (ascii "User-agent: *\nAllow: /\nDisallow: /debug/*"))

  unfoldable pub faq : Outcome HttpError Response
  faq = do
    scan ← query_db 0 (λ db. load_first db 0 (latest_first db s.scan_infos))
    addresses ← query_db 1 (λ db. load db 0 s.sanctioned_addresses)
    page_with html (faq_view scan addresses)

  -- `if !debug_pages_enabled.get_ref() { return Ok(HttpResponse::NotFound().finish()) }`.
  abbrev pub if_debug : Outcome HttpError Response → Outcome HttpError Response
  if_debug rest = elim s.debug_pages [ false ↦ returned not_found_page | true ↦ rest ]

  unfoldable pub debug : Outcome HttpError Response
  debug = if_debug (page_with html debug_view)

  -- `db::sanctioned_utxo_scan_infos`.
  unfoldable pub sanctioned_utxo_scan_infos :
      ℕ → Tables F32 Time → Outcome DbError (List (SanctionedUtxoScanInfo Time) × ℕ)
  sanctioned_utxo_scan_infos page db = do
    scans ← load db 0 (page_of max_utxoset_scans_per_page page (latest_first db s.scan_infos))
    scan_count ← load db 1 (length s.scan_infos)
    returned (scans, max_pages scan_count max_utxoset_scans_per_page)

  unfoldable pub debug_utxoset_scans : Option Text → Outcome HttpError Response
  unfolding sanctioned_utxo_scan_infos
  debug_utxoset_scans query_page = if_debug (
      page_of_query query_page >>= λ page. query_db 0 (sanctioned_utxo_scan_infos page) >>= λ r.
      page_with html (debug_scans_view r.0 r.1 page))

  unfoldable pub debug_unknown_pool_blocks : Outcome HttpError Response
  debug_unknown_pool_blocks = if_debug (
      query_db 0
        (λ db. load db 0 (newest_first db (filter (λ b. b.pool_name == ascii "Unknown") db.blocks)))
      >>= λ found. page_with html (debug_unknown_view found))

  unfoldable pub debug_fees_by_pool : Outcome HttpError Response
  debug_fees_by_pool =
      if_debug
        (query_db 0 (λ db. s.avg_fees_by_pool) >>= λ fees. page_with html (debug_fees_view fees))

  unfoldable pub debug_selection_page : Option Text → Outcome HttpError Response
  debug_selection_page query_page = if_debug (
      page_of_query query_page >>= λ page.
      query_db 0 (λ db. debug_template_selection_infos db s.debug_ids s.debug_count page) >>= λ r.
      page_with html (debug_selection_view r.0 r.1 page))

  unfoldable pub debug_sanctioned_by_pool : Outcome HttpError Response
  debug_sanctioned_by_pool = if_debug (
      query_db 0 (λ db. s.debug_sanctioned_table) >>= λ table.
      page_with html (debug_sanctioned_view table))

  unfoldable pub debug_sanctioned_transactions_rss : Outcome HttpError Response
  debug_sanctioned_transactions_rss =
      query_db 0 (λ db. load db 0 (
        newest_first db (
          filter (λ b. int_le (pos 1) b.template_sanctioned || int_le (pos 1) b.block_sanctioned)
            db.blocks)))
      >>= λ found. page_with rss (debug_sanctioned_feed found)
