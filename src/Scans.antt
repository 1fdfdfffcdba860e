-- ===== src/Scans.antt =====
-- daemon/src/main.rs: the scan of the UTXO set for the outputs of sanctioned addresses, and the
-- thread that repeats it.
pub mod Turns
pub mod Watching
use miningpool_observer.Prelude.{
  ℕ, Bool, true, false, Option, none, some, List, [], ◌∷◌, ◌++◌, map, reverse, filter, length, ℤ,
  as_i32, as_i64,
}
use miningpool_observer.Bitcoin.{Bytes, Text, Txid}
use miningpool_observer.Model.{SanctionedUtxo}
use miningpool_observer.Tagging.{unwrap_or}
use miningpool_observer.Database.{
  Table, SanctionedAddress, SanctionedUtxoScanInfo, insert_sanctioned_utxo_scan_info,
  clean_and_insert_sanctioned_utxos,
}

-- The node's answer to `scantxoutset`. Amounts are in satoshi.
pub record Utxo : Type 0 where
  pub txid : Txid
  pub vout : ℕ
  pub script_pub_key : Bytes
  pub amount : ℕ
  pub height : ℕ

pub record ScanTxOutResult : Type 0 where
  pub height : Option ℕ
  pub unspents : List Utxo
  pub total_amount : ℕ

-- What a scan meets: the parser of addresses, the node, and the clocks.
pub record Scanner (Time : Type 0) : Type 0 where
  pub is_address : Text → Bool
  pub scan_tx_out_set_blocking : List Text → Option ScanTxOutResult
  pub now : Time
  pub elapsed_secs : ℕ

-- `format!("addr({})", addr)`.
abbrev pub descriptor : Text → Text
descriptor addr = 97 ∷ 100 ∷ 100 ∷ 114 ∷ 40 ∷ addr ++ 41 ∷ []

abbrev pub utxo_row : Utxo → SanctionedUtxo
utxo_row utxo = record {
  txid = reverse utxo.txid;
  vout = as_i32 utxo.vout;
  script_pubkey = utxo.script_pub_key;
  amount = as_i64 utxo.amount;
  height = as_i32 utxo.height;
}

-- An address that cannot be parsed is skipped.
unfoldable pub scantxoutset_sanctioned_tx :
    {Time : Type 0}
    → Scanner Time
    → List Text
    → Option (List SanctionedUtxo × SanctionedUtxoScanInfo Time)
scantxoutset_sanctioned_tx s addrs =
    elim (s.scan_tx_out_set_blocking (map descriptor (filter s.is_address addrs))) [
      | none ↦ none
      | some scan_result ↦ some (
        map utxo_row scan_result.unspents,
        record {
          end_time = s.now;
          end_height = as_i32 (unwrap_or 0 scan_result.height);
          duration_seconds = as_i32 s.elapsed_secs;
          utxo_amount = as_i64 scan_result.total_amount;
          utxo_count = as_i32 (length scan_result.unspents);
        },
      )
    ]

-- How long the thread sleeps after a turn: 5 minutes, or 3 hours.
pub data Wait : Type 0 where
  after_failure before_rescan : Wait

abbrev pub seconds : Wait → ℕ
seconds Wait.after_failure = 300
seconds Wait.before_rescan = 10800

module _ {Time : Type 0} (infos : Table (SanctionedUtxoScanInfo Time))
    (utxos : Table SanctionedUtxo) where
  -- One turn of the thread's loop.
  unfoldable pub scan_turn :
      Scanner Time
      → Bool
      → Option (List SanctionedAddress)
      → infos.Db
      → utxos.Db
      → Wait × infos.Db × utxos.Db
  unfolding scantxoutset_sanctioned_tx insert_sanctioned_utxo_scan_info
      clean_and_insert_sanctioned_utxos
  scan_turn s connected sanctioned_addresses info_db utxo_db = elim connected [
    | false ↦ (Wait.after_failure, info_db, utxo_db)
    | true ↦ elim sanctioned_addresses [
      | none ↦ (Wait.after_failure, info_db, utxo_db)
      | some addresses ↦ elim (scantxoutset_sanctioned_tx s (map (λ a. a.address) addresses)) [
        | none ↦ (Wait.after_failure, info_db, utxo_db)
        | some (sanctioned_utxos, scan_info) ↦
            let (ok, info_db') = insert_sanctioned_utxo_scan_info infos scan_info info_db in
            elim ok [
              | false ↦ (Wait.before_rescan, info_db', utxo_db)
              | true ↦ (
                Wait.before_rescan,
                info_db',
                (clean_and_insert_sanctioned_utxos utxos sanctioned_utxos utxo_db).1,
              )
            ]
      ]
    ]
  ]
