-- ===== src/Scans/Turns.antt =====
-- What one turn of the scan thread does to the watched utxos.
use mathlib.Core.Path.{subst}
use miningpool_observer.Prelude.{
  ◌≡◌, refl, sym, ◌∙◌, ap, ◌&&◌, if◌then◌else◌, is_some, length, as_i32, as_i64, inl, inr, Bool,
  true, false, Option, none, some, List, map, filter, Option-cases, arith,
}
use miningpool_observer.Tagging.{unwrap_or}
use miningpool_observer.Model.{SanctionedUtxo}
use miningpool_observer.Database.{
  Table, TableLaws, SanctionedAddress, SanctionedUtxoScanInfo, insert_sanctioned_utxo_scan_info,
  clean_and_insert_sanctioned_utxos,
}
use miningpool_observer.Database.Replacing.{clean_and_insert_sanctioned_utxos-Replaced}
use miningpool_observer.Scans.{
  ScanTxOutResult, Scanner, descriptor, utxo_row, scantxoutset_sanctioned_tx, Wait, scan_turn,
}

module _ {Time : Type 0} (infos : Table (SanctionedUtxoScanInfo Time))
    (utxos : Table SanctionedUtxo) where
  -- What the node finds for the addresses of the database that can be parsed.
  abbrev pub found_by :
      Scanner Time → Bool → Option (List SanctionedAddress) → Option ScanTxOutResult
  found_by s false in_db = none
  found_by s true none = none
  found_by s true (some addresses) =
      s.scan_tx_out_set_blocking
        (map descriptor (filter s.is_address (map (λ a. a.address) addresses)))

  -- The report on a scan.
  abbrev pub report : Scanner Time → ScanTxOutResult → SanctionedUtxoScanInfo Time
  report s found = record {
    end_time = s.now;
    end_height = as_i32 (unwrap_or 0 found.height);
    duration_seconds = as_i32 s.elapsed_secs;
    utxo_amount = as_i64 found.total_amount;
    utxo_count = as_i32 (length found.unspents);
  }

  -- Whether the database takes the report, and then the outputs.
  abbrev pub takes : Scanner Time → ScanTxOutResult → infos.Db → utxos.Db → Bool
  takes s found info_db db =
      (insert_sanctioned_utxo_scan_info infos (report s found) info_db).0
      && (clean_and_insert_sanctioned_utxos utxos (map utxo_row found.unspents) db).0

  -- The outputs that are watched after a turn.
  abbrev pub watched_after :
      Scanner Time → Option ScanTxOutResult → infos.Db → utxos.Db → List SanctionedUtxo
  watched_after s none info_db db = utxos.rows db
  watched_after s (some found) info_db db =
      if takes s found info_db db then map utxo_row found.unspents else utxos.rows db

  abbrev pub Turned :
      Scanner Time
      → Option ScanTxOutResult
      → infos.Db
      → utxos.Db
      → Wait × infos.Db × utxos.Db
      → Type 0
  Turned s found info_db db turn =
      (utxos.rows turn.2 ≡ watched_after s found info_db db)
      × (turn.0 ≡ (if is_some found then Wait.before_rescan else Wait.after_failure))

  module _ (laws : TableLaws utxos) (s : Scanner Time) (info_db : infos.Db) (db : utxos.Db)
      (found : ScanTxOutResult) where
    stored_rows :
        (turn : Wait × infos.Db × utxos.Db)
        → turn.2 ≡ (
            if (insert_sanctioned_utxo_scan_info infos (report s found) info_db).0
            then (clean_and_insert_sanctioned_utxos utxos (map utxo_row found.unspents) db).1
            else db)
        → utxos.rows turn.2 ≡ watched_after s (some found) info_db db
    stored_rows turn e =
        elim (clean_and_insert_sanctioned_utxos-Replaced utxos laws (map utxo_row found.unspents)
          db) [
            | inl (k, q) ↦ ap utxos.rows e ∙ ground (arith, k, q)
            | inr (k, q) ↦ ap utxos.rows e ∙ ground (arith, k, q)
          ]

  -- A turn of the thread watches exactly the outputs that the node found for the stored addresses,
  -- if there were a connection, the addresses and an answer, and the database took the report and
  -- the outputs; in all other cases it watches those that it watched before. It waits five minutes
  -- if no answer was found, and three hours after an answer, stored or not.
  pub scan_turn-Turned :
      (laws : TableLaws utxos) (s : Scanner Time) (connected : Bool)
      (in_db : Option (List SanctionedAddress)) (info_db : infos.Db) (db : utxos.Db)
      → Turned s
          (found_by s connected in_db)
          info_db
          db
          (scan_turn infos utxos s connected in_db info_db db)
  unfolding scan_turn scantxoutset_sanctioned_tx
  scan_turn-Turned laws s false in_db info_db db = (refl, refl)
  scan_turn-Turned laws s true none info_db db = (refl, refl)
  scan_turn-Turned laws s true (some addresses) info_db db =
      let turn = scan_turn infos utxos s true (some addresses) info_db db in
      elim (Option-cases (found_by s true (some addresses))) [
        | inl e ↦ (ground arith, ground arith)
        | inr (found, e) ↦
            subst (λ o. Turned s o info_db db turn) (sym e)
              (stored_rows laws s info_db db found turn (ground arith), ground arith)
      ]
