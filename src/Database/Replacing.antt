-- ===== src/Database/Replacing.antt =====
-- The replacement of all rows of a table.
use miningpool_observer.Prelude.{
  ◌≡◌, ap, ◌∙◌, Bool, true, false, ◌⊎◌, inl, inr, List, ◌++◌, Bool-cases, arith,
}
use miningpool_observer.Model.{SanctionedUtxo}
use miningpool_observer.Database.{
  Table, TableLaws, SanctionedAddress, and_then, delete_and_insert, replace_sanctioned_addresses,
  clean_and_insert_sanctioned_utxos,
}

-- Reported as done, and these are the rows; or reported as failed, and the rows are the old ones.
abbrev pub Replaced : {Row : Type 0} (t : Table Row) → List Row → t.Db → Bool × t.Db → Type 0
Replaced t rs db r = ((r.0 ≡ true) × (t.rows r.1 ≡ rs)) ⊎ ((r.0 ≡ false) × (t.rows r.1 ≡ t.rows db))

module _ {Row : Type 0} (t : Table Row) (laws : TableLaws t) where
  abbrev body : List Row → t.Db → Bool × t.Db
  body rs db = and_then (t.delete db) (t.insert rs)

  body_rows : (rs : List Row) (db : t.Db) → (body rs db).0 ≡ true → t.rows (body rs db).1 ≡ rs
  body_rows rs db h = elim (Bool-cases (t.delete db).0) [
    | inl e ↦
        let rest : (t.insert rs (t.delete db).1).0 ≡ true = ground arith in
        let same : t.rows (body rs db).1 ≡ t.rows (t.insert rs (t.delete db).1).1 = ground arith in
        same ∙ laws.insert_rows rs (t.delete db).1 rest ∙ ap (λ l. l ++ rs) (laws.delete_rows db e)
    | inr e ↦ absurd (ground arith)
  ]

  delete_and_insert-Replaced :
      (rs : List Row) (db : t.Db) → Replaced t rs db (delete_and_insert t rs db)
  delete_and_insert-Replaced rs db = elim (Bool-cases (delete_and_insert t rs db).0) [
    | inl e ↦
        let (done, same) = laws.committed (body rs) db e in inl (e, same ∙ body_rows rs db done)
    | inr e ↦ inr (e, laws.rolled_back (body rs) db e)
  ]

-- Whether the stored addresses are replaced or not, the report is right: after a success the table
-- has exactly the given addresses, after an error, at whichever statement, those that it had.
pub replace_sanctioned_addresses-Replaced :
    (t : Table SanctionedAddress) (laws : TableLaws t) (addr : List SanctionedAddress) (db : t.Db)
    → Replaced t addr db (replace_sanctioned_addresses t addr db)
unfolding replace_sanctioned_addresses
replace_sanctioned_addresses-Replaced = delete_and_insert-Replaced

-- The same for the utxos of the last scan.
pub clean_and_insert_sanctioned_utxos-Replaced :
    (t : Table SanctionedUtxo) (laws : TableLaws t) (utxos : List SanctionedUtxo) (db : t.Db)
    → Replaced t utxos db (clean_and_insert_sanctioned_utxos t utxos db)
unfolding clean_and_insert_sanctioned_utxos
clean_and_insert_sanctioned_utxos-Replaced = delete_and_insert-Replaced
