-- ===== src/Packages/Partition.antt =====
-- The packages of `build_packages` against the transactions that they are built from.
use mathlib.Core.List.{append-nil, append_assoc, reverse-append, reverse-reverse}
use miningpool_observer.Prelude.{
  ◌≡◌, refl, ◌∙◌, sym, ap, ◌||◌, some, List, [], ◌∷◌, ◌++◌, reverse, foldl, length, is_empty,
  sum_by, flat_map, eqb_iff, length-append, length-reverse, Bool-cases, inl, inr, arith,
}
use miningpool_observer.Bitcoin.{Txid, Libraries}
use miningpool_observer.Model.{TxInfo, TxPackage}
use miningpool_observer.Packages.{
  Packing, belongs, pack, flush, known_txids, no_packages, build_packages,
}

-- All transactions of some packages, as they were read: in reverse.
abbrev pub read_order : List TxPackage → List TxInfo
read_order packages = flat_map (λ p. p.txns) packages

-- All transactions of some packages, each package in the order of the block.
abbrev pub block_order : List TxPackage → List TxInfo
block_order packages = flat_map (λ p. reverse p.txns) packages

read_order-append :
    (ps qs : List TxPackage) → read_order (ps ++ qs) ≡ read_order ps ++ read_order qs
read_order-append [] qs = refl
read_order-append (p ∷ ps) qs = simp (read_order-append ps qs, append_assoc)

block_order-append :
    (ps qs : List TxPackage) → block_order (ps ++ qs) ≡ block_order ps ++ block_order qs
block_order-append [] qs = refl
block_order-append (p ∷ ps) qs = simp (block_order-append ps qs, append_assoc)

block_order-reverse : (ps : List TxPackage) → block_order (reverse ps) ≡ reverse (read_order ps)
block_order-reverse [] = refl
block_order-reverse (p ∷ ps) =
    ap block_order (reverse-append (p ∷ []) ps)
    ∙ block_order-append (reverse ps) (p ∷ [])
    ∙ simp (block_order-reverse ps, append-nil, reverse-append)

sum_of_lengths : (ps : List TxPackage) → sum_by (λ p. length p.txns) ps ≡ length (block_order ps)
sum_of_lengths [] = refl
sum_of_lengths (p ∷ ps) = omega (
  arith,
  sum_of_lengths ps,
  length-append (reverse p.txns) (block_order ps),
  length-reverse p.txns,
)

module _ (lib : Libraries) (known : List Txid) where
  -- What has been read so far.
  abbrev packed : Packing → List TxInfo
  packed s = read_order s.packages ++ s.package_txns

  packed-pack :
      (s : Packing) (info : TxInfo) → packed (pack lib known s info) ≡ packed s ++ info ∷ []
  unfolding pack
  packed-pack s info =
      elim (Bool-cases (is_empty s.package_txns || belongs lib known s.package_txns info)) [
        | inl h ↦
            rw (h, pack) (sym (append_assoc (read_order s.packages) s.package_txns (info ∷ [])))
        | inr h ↦ rw (h, pack) (simp (read_order-append, append-nil))
      ]

  packed-foldl :
      (infos : List TxInfo) (s : Packing)
      → packed (foldl (pack lib known) s infos) ≡ packed s ++ infos
  packed-foldl [] s = sym (append-nil _)
  packed-foldl (info ∷ infos) s =
      packed-foldl infos (pack lib known s info)
      ∙ ap (λ l. l ++ infos) (packed-pack s info)
      ∙ append_assoc (packed s) (info ∷ []) infos

read_order-flush : (s : Packing) → read_order (flush s) ≡ read_order s.packages ++ s.package_txns
unfolding flush
read_order-flush s = by_package s.package_txns refl
  where
    by_package :
        (txns : List TxInfo)
        → s.package_txns ≡ txns
        → read_order (flush s) ≡ read_order s.packages ++ txns
    by_package [] h = rw (h, flush) (sym (append-nil (read_order s.packages)))
    by_package (t ∷ txns) h =
        rw (h, flush)
          (read_order-append s.packages (record { txns = t ∷ txns } ∷ [])
            ∙ ap (λ l. read_order s.packages ++ l) (append-nil (t ∷ txns)))

module _ (lib : Libraries) (txns : List TxInfo) where
  -- The state after the loop.
  abbrev pub final : Packing
  final = foldl (pack lib (known_txids lib txns)) no_packages (reverse txns)

  read_order-final : read_order (flush final) ≡ reverse txns
  read_order-final =
      read_order-flush final ∙ packed-foldl lib (known_txids lib txns) (reverse txns) no_packages

  block_order-final : block_order (reverse (flush final)) ≡ txns
  block_order-final =
      block_order-reverse (flush final) ∙ ap reverse read_order-final ∙ reverse-reverse txns

  lengths-final : length txns ≡ sum_by (λ p. length p.txns) (reverse (flush final))
  lengths-final = sym (sum_of_lengths (reverse (flush final)) ∙ ap length block_order-final)

  -- The assertion on the number of transactions never fails, and the packages, each one turned
  -- round, put together are the given transactions: none is lost, doubled or moved.
  pub build_packages-partition :
      (packages : List TxPackage) × (build_packages lib txns ≡ some packages)
      × (block_order packages ≡ txns)
  unfolding build_packages
  build_packages-partition =
      (reverse (flush final), rw ((eqb_iff _ _).1 lengths-final), block_order-final)
