-- ===== src/Addresses/Updating.antt =====
-- The outcome of one update of the sanctioned addresses.
use mathlib.Core.Path.{subst}
use miningpool_observer.Prelude.{
  ◌≡◌, ◌≢◌, refl, sym, ◌⊎◌, inl, inr, Bool, true, false, Option, none, some, leb, Bool-cases,
  Option-cases, arith,
}
use miningpool_observer.Bitcoin.{Text}
use miningpool_observer.Database.{Table, TableLaws, SanctionedAddress, replace_sanctioned_addresses}
use miningpool_observer.Database.Replacing.{replace_sanctioned_addresses-Replaced}
use miningpool_observer.Addresses.{
  UpdateSanctionedAddressesError, Response, Download, parsed_addresses, update_sanctioned_addresses,
}

module _ (is_address : Text → Bool) (t : Table SanctionedAddress) where
  -- A good response, a readable body and a connection: the table has exactly the addresses of the
  -- list. Otherwise it has the addresses that it had.
  abbrev pub Updated : Download → t.Db → Option UpdateSanctionedAddressesError × t.Db → Type 0
  Updated d db r =
      ((r.0 ≡ none)
        × (d.connected ≡ true)
        × (response : Response) × (d.response ≡ some response)
        × (leb 400 response.status_code ≡ false)
        × (body : Text) × (response.as_str ≡ some body)
        × (t.rows r.1 ≡ parsed_addresses is_address t body))
      ⊎ ((r.0 ≢ none) × (t.rows r.1 ≡ t.rows db))

  becomes :
      (d : Download) (db : t.Db) (r r' : Option UpdateSanctionedAddressesError × t.Db)
      → r' ≡ r
      → Updated d db r
      → Updated d db r'
  becomes d db r r' e = subst (Updated d db) (sym e)

  failed :
      (d : Download) (db : t.Db) (r : Option UpdateSanctionedAddressesError × t.Db)
      (e : UpdateSanctionedAddressesError)
      → r ≡ (some e, db)
      → Updated d db r
  failed d db r e h = becomes d db (some e, db) r h (inr (λ k. absurd (ground arith), refl))

  -- An update is reported as done exactly when it was: then the server answered with a status below
  -- 400 and a text, there was a connection, and the table has the lines of the text that are
  -- addresses, in their order, and nothing else. After any error, from the request to the database,
  -- the table has what it had: a failed update never leaves the daemon without its list.
  pub update_sanctioned_addresses-Updated :
      (laws : TableLaws t) (d : Download) (db : t.Db)
      → Updated d db (update_sanctioned_addresses is_address t d db)
  unfolding update_sanctioned_addresses
  update_sanctioned_addresses-Updated laws d db =
      let result = update_sanctioned_addresses is_address t d db in
      elim (Option-cases d.response) [
        | inl e ↦ failed d db result UpdateSanctionedAddressesError.min_req (ground arith)
        | inr (response, e) ↦ elim (Bool-cases (leb 400 response.status_code)) [
          | inl s ↦ failed d db result UpdateSanctionedAddressesError.http (ground arith)
          | inr s ↦ elim (Option-cases response.as_str) [
            | inl b ↦ failed d db result UpdateSanctionedAddressesError.min_req (ground arith)
            | inr (body, b) ↦ elim (Bool-cases d.connected) [
              | inr c ↦ failed d db result UpdateSanctionedAddressesError.db_pool (ground arith)
              | inl c ↦
                  let addresses = parsed_addresses is_address t body in
                  let r = replace_sanctioned_addresses t addresses db in
                  elim (replace_sanctioned_addresses-Replaced t laws addresses db) [
                    | inl (ok, rows) ↦
                        becomes d db (none, r.1) result (ground arith)
                          (inl (refl, c, response, e, s, body, b, rows))
                    | inr (ok, rows) ↦
                        becomes d db (some UpdateSanctionedAddressesError.database, r.1) result
                          (ground arith) (inr (λ h. absurd (ground arith), rows))
                  ]
            ]
          ]
        ]
      ]
