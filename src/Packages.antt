-- ===== src/Packages.antt =====
-- `build_packages` of daemon/src/processing.rs.
pub mod Partition
pub mod Links
use miningpool_observer.Prelude.{
  ℕ, Bool, true, false, ◌||◌, Option, none, some, List, [], ◌∷◌, ◌++◌, map, reverse, foldl, any,
  filter, contains, set_insert, to_set, length, is_empty, sum_by, eqb, if◌then◌else◌, list_eq,
  nat_eq,
}
use miningpool_observer.Bitcoin.{Txid, Libraries}
use miningpool_observer.Model.{TxInfo, TxPackage, prev_output_txids}

-- `txids.extend(&tx.prev_output_txids())`.
abbrev pub extend : List Txid → List Txid → List Txid
extend txids [] = txids
extend txids (x ∷ xs) = extend (set_insert x txids) xs

unfoldable pub parent_txids : List TxInfo → List Txid
parent_txids = foldl (λ txids tx. extend txids (prev_output_txids tx)) []

-- The package that is being built, and the packages before it.
pub record Packing : Type 0 where
  pub package_txns : List TxInfo
  pub packages : List TxPackage

abbrev pub no_packages : Packing
no_packages = record { package_txns = []; packages = [] }

-- The last package, after the loop.
unfoldable pub flush : Packing → List TxPackage
flush s =
    if is_empty s.package_txns
    then s.packages
    else s.packages ++ record { txns = s.package_txns } ∷ []

module _ (lib : Libraries) where
  open lib use {compute_txid}

  -- A transaction joins the package if it is a parent of one in it, or shares a parent of `known`
  -- with one in it.
  unfoldable pub belongs : List Txid → List TxInfo → TxInfo → Bool
  unfolding parent_txids
  belongs known package_txns info =
      let parents = parent_txids package_txns in
      contains (compute_txid info.tx) parents
      || any (λ txid. contains txid parents)
          (filter (λ txid. contains txid known) (prev_output_txids info))

  -- The body of the loop.
  unfoldable pub pack : List Txid → Packing → TxInfo → Packing
  pack known s info =
      if is_empty s.package_txns || belongs known s.package_txns info
      then record s { package_txns = s.package_txns ++ info ∷ [] }
      else record {
        package_txns = info ∷ [];
        packages = s.packages ++ record { txns = s.package_txns } ∷ [];
      }

  abbrev pub known_txids : List TxInfo → List Txid
  known_txids txns = to_set (map (λ info. compute_txid info.tx) txns)

  -- `none` stands for a failed assertion.
  unfoldable pub build_packages : List TxInfo → Option (List TxPackage)
  unfolding pack flush
  build_packages txns =
      let s = foldl (pack (known_txids txns)) no_packages (reverse txns) in
      let packages = reverse (flush s) in
      if eqb (length txns) (sum_by (λ p. length p.txns) packages) then some packages else none
