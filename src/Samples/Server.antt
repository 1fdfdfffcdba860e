-- ===== src/Samples/Server.antt =====
-- Witnesses of the theorems on the configuration and on the web server.
use miningpool_observer.Prelude.{
  ◌≡◌, nat_order, ◌≢◌, ◌^◌, ◌&&◌, refl, ℕ, true, false, not, none, some, [], ◌∷◌, is_empty, ◌++◌,
  ltb, pos, if◌then◌else◌,
}
use miningpool_observer.Prelude.Outcomes.{panicked, failed, returned, ascii}
use miningpool_observer.Bitcoin.{Text}
use miningpool_observer.Model.{TransactionOnlyInTemplate, ConflictingTransaction}
use miningpool_observer.Config.{
  user_pass, DaemonTomlConfig, Environment, DaemonConfig, load_daemon_config,
  pool_identification_from, rpc_auth_of, get_user_pass, default_sanctioned_addresses_url,
  default_pool_identification_dataset_url,
}
use miningpool_observer.Config.Credentials.{Usable, Complete, load_daemon_config-Complete}
use miningpool_observer.Web.{Block, Tables, blocks}
use miningpool_observer.Web.Missing.{missing_transactions}
use miningpool_observer.Web.Missing.Total.{missing_transactions-total}
use miningpool_observer.Web.Conflicting.{
  blocks_with_conflicting_transactions, single_block_with_conflicting_transactions,
}
use miningpool_observer.Web.Conflicting.Total.{conflicting_pages-total}
use miningpool_observer.Web.Util.{not_found, parse_uint}
use miningpool_observer.Web.Util.Numbers.{unsigned_text, all_digits, decimal, parse_uint-decimal}
use miningpool_observer.Samples.Daemon.{stored}

abbrev toml : DaemonTomlConfig
toml = record {
  rpc_host = ascii "localhost";
  rpc_port = 8332;
  rpc_cookie_file = none;
  rpc_user = some (ascii "me");
  rpc_password = some (ascii "x");
  database_url = [];
  log_level = ascii "INFO";
  retag_transactions = false;
  prometheus = record { enable = false; address = [] };
  sanctioned_addresses_url = none;
  pool_identificatoin = none;
}

-- Levels and networks are their texts.
abbrev env : Environment
env = record {
  config_file = none;
  read_to_string = λ path. some [];
  exists = λ path. false;
  daemon_from_str = λ text. some toml;
  web_from_str = λ text. none;
  LevelFilter = Text;
  level_from_str = λ text. some text;
  Network = Text;
  network_from_str = λ text. some text;
  show_network = λ network. network;
  bitcoin_network = ascii "bitcoin";
  to_lowercase = λ text. text;
  show_port = λ n. n ∷ [];
}

abbrev loaded_config : DaemonConfig env
loaded_config = record {
  rpc_url = ascii "http://localhost:" ++ 8332 ∷ [];
  rpc_auth = user_pass (ascii "me") (ascii "x");
  database_url = [];
  log_level = ascii "INFO";
  retag_transactions = false;
  prometheus = record { enable = false; address = [] };
  sanctioned_addresses_url = default_sanctioned_addresses_url;
  pool_identification = record {
    dataset_url = default_pool_identification_dataset_url;
    network = ascii "bitcoin";
  };
}

load_sample : load_daemon_config env ≡ returned loaded_config
unfolding load_daemon_config pool_identification_from rpc_auth_of
load_sample = refl

load_daemon_config-Complete_example :
    Usable env loaded_config.rpc_auth
    × Complete (get_user_pass (λ path. none) loaded_config.rpc_auth)
load_daemon_config-Complete_example =
    load_daemon_config-Complete env loaded_config (λ path. none) load_sample

abbrev pub web_block : Block ℕ ℕ
web_block = record {
  id = pos 1;
  hash = 8 ∷ [];
  prev_hash = 7 ∷ [];
  height = pos 100;
  tags = [];
  missing_tx = pos 1;
  extra_tx = pos 0;
  shared_tx = pos 0;
  sanctioned_missing_tx = pos 0;
  equality = 0;
  block_time = 50;
  block_seen_time = 51;
  block_tx = pos 1;
  block_sanctioned = pos 0;
  block_cb_value = pos 0;
  block_cb_fees = pos 0;
  block_weight = pos 0;
  block_pkg_weights = [];
  block_pkg_feerates = 3 ∷ [];
  pool_name = ascii "Unknown";
  pool_link = [];
  pool_id_method = [];
  template_tx = pos 1;
  template_time = 40;
  template_sanctioned = pos 0;
  template_cb_value = pos 0;
  template_cb_fees = pos 0;
  template_weight = pos 0;
  template_pkg_weights = [];
  template_pkg_feerates = [];
  template_sigops = pos 0;
  block_sigops = pos 0;
}

abbrev missing_row : TransactionOnlyInTemplate
missing_row = record {
  block_id = pos 1;
  position = pos 0;
  transaction_txid = 2 ∷ [];
  mempool_age_seconds = pos 60;
}

-- The transaction 2 of the template is in conflict with the transaction 1 of the block.
abbrev conflict : ConflictingTransaction
conflict = record {
  block_id = pos 1;
  template_txids = (2 ∷ []) ∷ [];
  block_txids = (1 ∷ []) ∷ [];
  conflicting_outpoints_txids = (5 ∷ []) ∷ [];
  conflicting_outpoints_vouts = pos 0 ∷ [];
}

abbrev tables : Tables ℕ ℕ
tables = record {
  blocks = web_block ∷ record web_block { id = pos 2; block_time = 90 } ∷ [];
  transactions = stored 1 [] ∷ stored 2 [] ∷ [];
  only_in_template = missing_row ∷ [];
  only_in_block = [];
  sanctioned = [];
  conflicting = conflict ∷ [];
  debug = [];
  time_order = nat_order;
  answered = λ n. true;
}

missing_transactions-total_example :
    missing_transactions 0 tables 1 (λ page. (2 ∷ []) ∷ []) 0 ≢ panicked
missing_transactions-total_example =
    missing_transactions-total 0 tables 1 (λ page. (2 ∷ []) ∷ []) 0 (refl, tt) (refl, tt)

conflicting_pages-total_example :
    (blocks_with_conflicting_transactions tables (λ page. pos 1 ∷ []) 1 0 ≢ panicked)
    × (single_block_with_conflicting_transactions tables (8 ∷ []) ≢ panicked)
conflicting_pages-total_example =
    conflicting_pages-total tables (λ page. pos 1 ∷ []) 1 0 (8 ∷ []) (((refl, tt), (refl, tt)), tt)

parse_uint-decimal_example : parse_uint (ascii "+17") ≡ (
    if not (is_empty (unsigned_text (ascii "+17")))
      && all_digits (unsigned_text (ascii "+17"))
      && ltb (decimal 0 (unsigned_text (ascii "+17"))) (2 ^ 32)
    then returned (decimal 0 (unsigned_text (ascii "+17")))
    else failed not_found)
parse_uint-decimal_example = parse_uint-decimal (ascii "+17")
