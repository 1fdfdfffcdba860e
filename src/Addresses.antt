-- ===== src/Addresses.antt =====
-- daemon/src/main.rs: the download of the list of sanctioned addresses, at the start and then by a
-- thread.
pub mod Updating
pub mod Parsed
use miningpool_observer.Prelude.{
  ℕ, Bool, true, false, Option, none, some, List, [], ◌∷◌, map, filter, leb, eqb, if◌then◌else◌,
}
use miningpool_observer.Bitcoin.{Text}
use miningpool_observer.Database.{Table, SanctionedAddress, replace_sanctioned_addresses}

pub data UpdateSanctionedAddressesError : Type 0 where
  database min_req db_pool http : UpdateSanctionedAddressesError

-- A response of the server; `as_str` fails where the body is no UTF-8.
pub record Response : Type 0 where
  pub status_code : ℕ
  pub as_str : Option Text

abbrev pub strip_cr : Text → Text
strip_cr [] = []
strip_cr (c ∷ []) = if eqb c 13 then [] else c ∷ []
strip_cr (c ∷ d ∷ cs) = c ∷ strip_cr (d ∷ cs)

-- The pieces between the `\n`; the last one is marked as not ended by one.
abbrev pub pieces : Text → List (Text × Bool)
pieces [] = []
pieces (c ∷ cs) =
    let rest = pieces cs in
    if eqb c 10
    then ([], true) ∷ rest
    else elim rest [ [] ↦ (c ∷ [], false) ∷ [] | p ∷ ps ↦ (c ∷ p.0, p.1) ∷ ps ]

-- `str::lines`: a line ends at `\n` or `\r\n`; behind the last `\n` there is no empty line.
unfoldable pub lines : Text → List Text
lines text = map (λ p. if p.1 then strip_cr p.0 else p.0) (pieces text)

-- What the download meets: `send`'s response, the parser of addresses of the bitcoin crate, and
-- whether the pool gives a connection.
pub record Download : Type 0 where
  pub response : Option Response
  pub connected : Bool

module _ (is_address : Text → Bool) (t : Table SanctionedAddress) where
  -- The lines that can be parsed.
  abbrev pub parsed_addresses : Text → List SanctionedAddress
  parsed_addresses body =
      filter (λ addr. is_address addr.address) (map (λ a. record { address = a }) (lines body))

  -- `none` for `Ok(())`.
  unfoldable pub update_sanctioned_addresses :
      Download → t.Db → Option UpdateSanctionedAddressesError × t.Db
  unfolding lines replace_sanctioned_addresses
  update_sanctioned_addresses d db = elim d.response [
    | none ↦ (some min_req, db)
    | some response ↦ elim (leb 400 response.status_code) [
      | true ↦ (some http, db)
      | false ↦ elim response.as_str [
        | none ↦ (some min_req, db)
        | some body ↦ elim d.connected [
          | false ↦ (some db_pool, db)
          | true ↦
              let (ok, db') = replace_sanctioned_addresses t (parsed_addresses body) db in
              elim ok [ true ↦ (none, db') | false ↦ (some database, db') ]
        ]
      ]
    ]
  ]

  -- The turns of the thread's loop, for the downloads that they make; an error is logged.
  unfoldable pub updater_loop : List Download → t.Db → t.Db
  unfolding update_sanctioned_addresses
  updater_loop [] db = db
  updater_loop (d ∷ ds) db = updater_loop ds (update_sanctioned_addresses d db).1

  -- The first update is made before the thread is there, and its error is returned.
  unfoldable pub start_sanctioned_addresses_updater_thread :
      Download → List Download → t.Db → Option UpdateSanctionedAddressesError × t.Db
  unfolding updater_loop
  start_sanctioned_addresses_updater_thread first later db =
      let (result, db') = update_sanctioned_addresses first db in
      elim result [ some e ↦ (some e, db') | none ↦ (none, updater_loop later db') ]
