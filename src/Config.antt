-- ===== src/Config.antt =====
-- shared/src/config.rs: the configurations of the daemon and of the web server; and `get_user_pass`
-- of daemon/src/main.rs, which reads the credentials that the daemon's configuration names.
pub mod Credentials
use miningpool_observer.Prelude.{
  ℕ, Bool, true, false, Option, none, some, List, [], ◌∷◌, ◌++◌, eqb, if◌then◌else◌, is_some, ◌&&◌,
}
use miningpool_observer.Prelude.Outcomes.{Outcome, returned, failed, ok_or, expect, ascii, ◌>>=◌}
use miningpool_observer.Bitcoin.{Text}
use miningpool_observer.Tagging.{unwrap_or}

abbrev pub default_daemon_config : Text
default_daemon_config = ascii "daemon-config.toml"

abbrev pub default_web_config : Text
default_web_config = ascii "web-config.toml"

abbrev pub default_sanctioned_addresses_url : Text
default_sanctioned_addresses_url =
    ascii
      "https://raw.githubusercontent.com/0xB10C/ofac-sanctioned-digital-currency-addresses/lists/sanctioned_addresses_XBT.txt"

abbrev pub default_pool_identification_dataset_url : Text
default_pool_identification_dataset_url =
    ascii "https://raw.githubusercontent.com/bitcoin-data/mining-pools/generated/pool-list.json"

pub data ConfigError : Type 0 where
  cookie_file_does_not_exist no_rpc_auth invalid_log_level toml_error read_error : ConfigError

-- `bitcoincore_rpc::Auth`.
pub data Auth : Type 0 where
  no_auth : Auth
  user_pass : Text → Text → Auth
  cookie_file : Text → Auth

pub record PrometheusConfig : Type 0 where
  pub enable : Bool
  pub address : Text

pub record PoolIdentificationTomlConfig : Type 0 where
  pub dataset_url : Option Text
  pub network : Option Text

pub record DaemonTomlConfig : Type 0 where
  pub rpc_host : Text
  pub rpc_port : ℕ
  pub rpc_cookie_file : Option Text
  pub rpc_user : Option Text
  pub rpc_password : Option Text
  pub database_url : Text
  pub log_level : Text
  pub retag_transactions : Bool
  pub prometheus : PrometheusConfig
  pub sanctioned_addresses_url : Option Text
  pub pool_identificatoin : Option PoolIdentificationTomlConfig

pub record WebSiteConfig : Type 0 where
  pub title : Text
  pub footer : Text
  pub base_url : Text

pub record WebTomlConfig : Type 0 where
  pub address : Text
  pub database_url : Text
  pub log_level : Text
  pub debug_pages : Option Bool
  pub www_dir_path : Text
  pub site : WebSiteConfig

-- The environment, the files, and the parsers of the other packages.
pub record Environment : Type 1 where
  pub config_file : Option Text
  pub read_to_string : Text → Option Text
  pub exists : Text → Bool
  pub daemon_from_str : Text → Option DaemonTomlConfig
  pub web_from_str : Text → Option WebTomlConfig
  pub LevelFilter : Type 0
  pub level_from_str : Text → Option LevelFilter
  pub Network : Type 0
  pub network_from_str : Text → Option Network
  pub show_network : Network → Text
  pub bitcoin_network : Network
  pub to_lowercase : Text → Text
  pub show_port : ℕ → Text

module _ (env : Environment) where
  open env use {LevelFilter, Network}

  pub record PoolIdentificationConfig : Type 0 where
    pub dataset_url : Text
    pub network : Network

  pub record DaemonConfig : Type 0 where
    pub rpc_url : Text
    pub rpc_auth : Auth
    pub database_url : Text
    pub log_level : LevelFilter
    pub retag_transactions : Bool
    pub prometheus : PrometheusConfig
    pub sanctioned_addresses_url : Text
    pub pool_identification : PoolIdentificationConfig

  pub record WebConfig : Type 0 where
    pub address : Text
    pub database_url : Text
    pub log_level : LevelFilter
    pub debug_pages : Bool
    pub www_dir_path : Text
    pub site : WebSiteConfig

  -- `Default for PoolIdentificationTomlConfig`.
  abbrev pub default_pool_identification : PoolIdentificationTomlConfig
  default_pool_identification = record {
    dataset_url = some default_pool_identification_dataset_url;
    network = some (env.show_network env.bitcoin_network);
  }

  -- `From<PoolIdentificationTomlConfig>`, which panics on an unknown network.
  unfoldable pub pool_identification_from :
      PoolIdentificationTomlConfig → Outcome ConfigError PoolIdentificationConfig
  pool_identification_from toml = do
    network ← expect (
        env.network_from_str
          (env.to_lowercase (unwrap_or (env.show_network env.bitcoin_network) toml.network)))
    returned (record {
      dataset_url = unwrap_or default_pool_identification_dataset_url toml.dataset_url;
      network = network;
    })

  -- The chain of conditions for `rpc_auth`.
  unfoldable pub rpc_auth_of : DaemonTomlConfig → Outcome ConfigError Auth
  rpc_auth_of config = elim config.rpc_cookie_file [
    | some rpc_cookie_file ↦
        if env.exists rpc_cookie_file
        then returned (cookie_file rpc_cookie_file)
        else failed cookie_file_does_not_exist
    | none ↦ elim config.rpc_user [
      | none ↦ failed no_rpc_auth
      | some user ↦ elim config.rpc_password [
        | none ↦ failed no_rpc_auth
        | some password ↦ returned (user_pass user password)
      ]
    ]
  ]

  unfoldable pub load_daemon_config : Outcome ConfigError DaemonConfig
  unfolding pool_identification_from rpc_auth_of
  load_daemon_config = do
    config_string ←
        ok_or read_error (env.read_to_string (unwrap_or default_daemon_config env.config_file))
    config ← ok_or toml_error (env.daemon_from_str config_string)
    rpc_auth ← rpc_auth_of config
    log_level ← ok_or invalid_log_level (env.level_from_str config.log_level)
    pool_identification ←
        pool_identification_from (unwrap_or default_pool_identification config.pool_identificatoin)
    returned (record {
      rpc_url = ascii "http://" ++ config.rpc_host ++ ascii ":" ++ env.show_port config.rpc_port;
      rpc_auth = rpc_auth;
      database_url = config.database_url;
      log_level = log_level;
      retag_transactions = config.retag_transactions;
      prometheus = config.prometheus;
      sanctioned_addresses_url =
          unwrap_or default_sanctioned_addresses_url config.sanctioned_addresses_url;
      pool_identification = pool_identification;
    })

  unfoldable pub load_web_config : Outcome ConfigError WebConfig
  load_web_config = do
    config_string ←
        ok_or read_error (env.read_to_string (unwrap_or default_web_config env.config_file))
    config ← ok_or toml_error (env.web_from_str config_string)
    log_level ← ok_or invalid_log_level (env.level_from_str config.log_level)
    returned (record {
      address = config.address;
      database_url = config.database_url;
      log_level = log_level;
      debug_pages = unwrap_or false config.debug_pages;
      www_dir_path = config.www_dir_path;
      site = config.site;
    })

pub data CredentialsError : Type 0 where
  io_error invalid_cookie_file : CredentialsError

-- `splitn(2, ':')`: what is before the first colon, and what is behind it, if there is one.
unfoldable pub split_colon : Text → Text × Option Text
split_colon [] = ([], none)
split_colon (c ∷ cs) =
    let (before, behind) = split_colon cs in
    if eqb c 58 then ([], some cs) else (c ∷ before, behind)

unfoldable pub get_user_pass :
    (Text → Option Text) → Auth → Outcome CredentialsError (Option Text × Option Text)
unfolding split_colon
get_user_pass read_to_string no_auth = returned (none, none)
get_user_pass read_to_string (user_pass u p) = returned (some u, some p)
get_user_pass read_to_string (cookie_file path) = do
  contents ← ok_or io_error (read_to_string path)
  let (user, password) = split_colon contents
  pass ← ok_or invalid_cookie_file password
  returned (some user, some pass)
