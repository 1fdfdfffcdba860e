-- ===== src/Addresses/Parsed.antt =====
-- What the table of sanctioned addresses has while the updater runs.
use mathlib.Core.Path.{subst}
use miningpool_observer.Prelude.{
  ◌≡◌, sym, inl, inr, Bool, true, none, List, [], ◌∷◌, All, filter-passes, Option-cases, arith,
}
use miningpool_observer.Bitcoin.{Text}
use miningpool_observer.Database.{Table, TableLaws, SanctionedAddress}
use miningpool_observer.Addresses.{
  Download, update_sanctioned_addresses, updater_loop, start_sanctioned_addresses_updater_thread,
}
use miningpool_observer.Addresses.Updating.{update_sanctioned_addresses-Updated}

module _ (is_address : Text → Bool) (t : Table SanctionedAddress) (laws : TableLaws t) where
  -- Every stored address can be parsed.
  abbrev pub AllParsed : t.Db → Type 0
  AllParsed db = All (λ addr. is_address addr.address ≡ true) (t.rows db)

  update-AllParsed :
      (d : Download) (db : t.Db)
      → AllParsed db
      → AllParsed (update_sanctioned_addresses is_address t d db).1
  update-AllParsed d db h = elim (update_sanctioned_addresses-Updated is_address t laws d db) [
    | inl (_, _, _, _, _, body, _, rows) ↦
        subst (All (λ addr. is_address addr.address ≡ true)) (sym rows)
          (filter-passes (λ addr. is_address addr.address) _)
    | inr (_, rows) ↦ subst (All (λ addr. is_address addr.address ≡ true)) (sym rows) h
  ]

  updater_loop-AllParsed :
      (ds : List Download) (db : t.Db) → AllParsed db → AllParsed (updater_loop is_address t ds db)
  unfolding updater_loop
  updater_loop-AllParsed [] db h = h
  updater_loop-AllParsed (d ∷ ds) db h =
      updater_loop-AllParsed ds (update_sanctioned_addresses is_address t d db).1
        (update-AllParsed d db h)

  -- If the updater starts, then from its first update on every address in the table can be parsed,
  -- whatever the table had before, and whichever of the later updates fail.
  pub start_sanctioned_addresses_updater_thread-AllParsed :
      (first : Download) (later : List Download) (db : t.Db)
      → (start_sanctioned_addresses_updater_thread is_address t first later db).0 ≡ none
      → AllParsed (start_sanctioned_addresses_updater_thread is_address t first later db).1
  unfolding start_sanctioned_addresses_updater_thread
  start_sanctioned_addresses_updater_thread-AllParsed first later db h =
      let r = update_sanctioned_addresses is_address t first db in
      let started = start_sanctioned_addresses_updater_thread is_address t first later db in
      elim (update_sanctioned_addresses-Updated is_address t laws first db) [
        | inl (ok, _, _, _, _, body, _, rows) ↦
            let same : started.1 ≡ updater_loop is_address t later r.1 = ground arith in
            subst AllParsed (sym same) (
              updater_loop-AllParsed later r.1 (
                subst (All (λ addr. is_address addr.address ≡ true)) (sym rows)
                  (filter-passes (λ addr. is_address addr.address) _)))
        | inr (failed, rows) ↦ elim (Option-cases r.0) [
          | inl e ↦ absurd (failed e)
          | inr (err, e) ↦ absurd (ground arith)
        ]
      ]
