-- ===== src/Lib.antt =====
-- miningpool-observer compares each block that is mined with the block templates that a Bitcoin Core
-- node gave before, stores what the pool left out, put in or replaced, and shows it on web pages.
-- This library models the logic of the daemon and of the web server and the data that they share,
-- and proves that they do what they promise.
--
-- The parts and how they interact. The daemon's main loop asks the node for templates and keeps the
-- last ones. When the tip changes, it fetches the block and hands it to `process`, which selects the
-- template that differs least, compares the two sets of transactions, builds the rows for the
-- database and, after the last insert, clears the templates. Beside it run threads that download the
-- sanctioned addresses and the pools, scan the utxo set for the outputs of these addresses, tag the
-- stored transactions again and try to identify unknown pools again. The web server answers requests
-- from the same tables.
--
--   Prelude        shared helpers: Boolean tests, lists, sets and maps as lists, sorting, casts
--   Bitcoin        the data of the Bitcoin crates, and the record `Libraries` of the functions of
--                  other packages that the daemon calls (bitcoin, rawtx_rs, chrono, f32 and f64)
--   Model          daemon/src/model.rs, and the rows of shared/src/model.rs
--   Tags           shared/src/tags.rs: TxTag, BlockTag, try_from, TX_TAGS, the colours
--   Sanctions      daemon/src/processing.rs: is_tx_sanctioned, is_tx_to_sanctioned,
--                  is_tx_from_sanctioned, tx_sanctioned_addresses, the map of watched utxos,
--                  build_newly_created_sanctioned_utxos, get_sanctioned_missing_tx_count
--   Tagging        daemon/src/processing.rs: get_transaction_tags, retag_transaction
--   Packages       daemon/src/processing.rs: build_packages
--   Transactions   daemon/src/processing.rs: build_transaction, add_to_transactions,
--                  build_transactions_only_in_block, build_transactions_only_in_template,
--                  build_sanctioned_transaction_infos
--   TxSets         daemon/src/processing.rs: build_block_tx_data, build_template_tx_data
--   Templates      daemon/src/main.rs: select_best_template_for_block, and
--                  build_debug_template_selection_infos of daemon/src/processing.rs
--   Conflicts      daemon/src/processing.rs: build_conflicting_transactions
--   Blocks         daemon/src/processing.rs: build_block, get_pool_info_or_default
--   Process        daemon/src/main.rs: process
--   Database       daemon/src/db.rs: the inserts, the merge of tags, the replacements
--   Retag          daemon/src/main.rs: retag_transactions
--   Addresses      daemon/src/main.rs: update_sanctioned_addresses and its thread
--   Scans          daemon/src/main.rs: scantxoutset_sanctioned_tx and its thread
--   Pools          daemon/src/main.rs: load_pool_identification_dataset and its thread,
--                  start_retry_unknown_pool_identification_thread
--   MempoolAges    daemon/src/main.rs: mempool_age_seconds
--   Config         shared/src/config.rs: load_daemon_config, load_web_config; and get_user_pass of
--                  daemon/src/main.rs
--   Web            web/src/db.rs: blocks, blocks_by_pool, block; with the children
--     Missing      web/src/db.rs: missing_transactions, single_missing_transaction
--     Conflicting  web/src/db.rs: blocks_with_conflicting_transactions,
--                  single_block_with_conflicting_transactions
--     Sanctioned   web/src/db.rs: block_with_tx, missing_sanctioned_txns_for_block,
--                  debug_template_selection_infos
--     Util         web/src/util.rs
--     Handlers     web/src/handler.rs
--   MainLoop       daemon/src/main.rs: main_loop, one turn and the runs
--   Samples        a concrete instance of the parameters, and the witnesses
--
-- How the state corresponds. A `&mut HashMap` of transactions is passed in and returned. A hash set
-- or a hash map is a list without double keys, in an order of its own; `last_templates` is a list
-- with the oldest template in front. A panic is `none`. The answers of the node in a turn are the
-- record `Rpc`, those of the database in a run of `process` the record `Answers`. `&Conflict`
-- references in build_conflicting_transactions are marks on the list of conflicts. Code that returns
-- a `Result` and may panic gives an `Outcome`: panicked, failed or returned. Tables that the daemon
-- writes are interfaces, records of statements (`Table`, `TransactionTable`, `BlockTable`), with
-- records of laws that say what PostgreSQL does: a failed statement changes nothing, a transaction
-- is committed or rolled back. A thread is a function of the answers that its turns meet. For the web server a
-- table is the list of its rows, and `Tables.answered` says which of a page's queries the database
-- answers. `ORDER BY` is a stable sort, where PostgreSQL leaves the order of equal keys open. The
-- record `Server` is what a request finds.
--
-- Bounds and fuel. All loops are structural recursions over lists, so that no fuel is used. Casts to
-- i32, i64 and u32 wrap around as in the source. Sums of amounts, sigops and weights are not cut off
-- at 64 bits: the amount of all bitcoins is below 2^51 satoshi. The page counts of the web server are
-- computed in `f32` (Prelude.Floats), with 24 bits and rounding to even; the search for the shift has
-- a fuel of 64, which is enough for all counts of 64 bits.
--
-- Not modelled: the start of the daemon and of the web server, the table of routes, the preview
-- images of web/src/ogimage.rs, the error pages, metrics, logging and sleeping. The raw SQL queries
-- of web/src/db.rs are parameters, as are the templates. The threads are modelled one by one, not
-- interleaved. `NewBlock.equality`, which is always 0.0, and `NewBlock.block_seen_time` are left out.
pub mod Prelude
pub mod Bitcoin
pub mod Model
pub mod Tags
pub mod Sanctions
pub mod Tagging
pub mod Packages
pub mod Transactions
pub mod TxSets
pub mod Templates
pub mod Conflicts
pub mod Blocks
pub mod Process
pub mod Database
pub mod Retag
pub mod Addresses
pub mod Scans
pub mod Pools
pub mod MempoolAges
pub mod Config
pub mod Web
pub mod MainLoop
pub mod Samples
