-- ===== src/Packages/Links.antt =====
-- Why two transactions are in one package, or in two.
use mathlib.Core.Path.{ap₂, subst}
use mathlib.Core.List.{append-nil, append_assoc, reverse-reverse}
use miningpool_observer.Prelude.{
  ◌≡◌, refl, ◌∙◌, sym, ap, Bool, true, false, ◌&&◌, ◌||◌, none, some, List, [], ◌∷◌, ◌++◌, map,
  reverse, foldl, any, contains, contains-set_insert, contains-to_set, any-map, set_insert,
  if◌then◌else◌, ◌==◌, Bool-cases, inl, inr, arith, list_eq, nat_eq, any-filter, any-to_set,
  any_ext,
}
use miningpool_observer.Bitcoin.{Txid, Libraries}
use miningpool_observer.Model.{TxInfo, TxPackage, prev_output_txids}
use miningpool_observer.Packages.{
  Packing, extend, parent_txids, belongs, pack, flush, known_txids, no_packages, build_packages,
}
use miningpool_observer.Packages.Partition.{final}

-- The transaction has an input that spends an output of the transaction with this txid.
abbrev pub spends : Txid → TxInfo → Bool
spends txid info = any (λ i. txid == i.previous_output.txid) info.tx.input

contains-prev_output_txids :
    (txid : Txid) (info : TxInfo) → contains txid (prev_output_txids info) ≡ spends txid info
unfolding prev_output_txids
contains-prev_output_txids txid info =
    contains-to_set txid (map (λ i. i.previous_output.txid) info.tx.input)
    ∙ any-map (λ x. txid == x) (λ i. i.previous_output.txid) info.tx.input

contains-extend :
    (txid : Txid) (xs txids : List Txid)
    → contains txid (extend txids xs) ≡ contains txid xs || contains txid txids
contains-extend txid [] txids = refl
contains-extend txid (x ∷ xs) txids =
    ground (arith, contains-extend txid xs (set_insert x txids), contains-set_insert txid x txids)

parents_from : (txids : List Txid) → List TxInfo → List Txid
parents_from = foldl (λ txids tx. extend txids (prev_output_txids tx))

contains-parents_from :
    (txid : Txid) (infos : List TxInfo) (txids : List Txid)
    → contains txid (parents_from txids infos) ≡ any (spends txid) infos || contains txid txids
unfolding parents_from
contains-parents_from txid [] txids = refl
contains-parents_from txid (info ∷ infos) txids = ground (
  arith,
  contains-parents_from txid infos (extend txids (prev_output_txids info)),
  contains-extend txid (prev_output_txids info) txids,
  contains-prev_output_txids txid info,
)

contains-parent_txids :
    (txid : Txid) (infos : List TxInfo)
    → contains txid (parent_txids infos) ≡ any (spends txid) infos
unfolding parent_txids parents_from
contains-parent_txids txid infos = ground (arith, contains-parents_from txid infos [])

any-prev_output_txids :
    (p : Txid → Bool) (info : TxInfo)
    → any p (prev_output_txids info) ≡ any (λ i. p i.previous_output.txid) info.tx.input
unfolding prev_output_txids
any-prev_output_txids p info =
    any-to_set p (map (λ i. i.previous_output.txid) info.tx.input)
    ∙ any-map p (λ i. i.previous_output.txid) info.tx.input

module _ (lib : Libraries) (known : List Txid) where
  open lib use {compute_txid}

  -- A transaction of the package spends an output of this one, or spends an output of a
  -- transaction of the block or template that this one spends from, too.
  abbrev pub related : List TxInfo → TxInfo → Bool
  related package_txns info =
      any (spends (compute_txid info.tx)) package_txns
      || any
          (λ i.
            contains i.previous_output.txid known
            && any (spends i.previous_output.txid) package_txns)
          info.tx.input

  -- `belongs` decides it.
  belongs-related :
      (package_txns : List TxInfo) (info : TxInfo)
      → belongs lib known package_txns info ≡ related package_txns info
  unfolding belongs
  belongs-related package_txns info =
      ap₂ ◌||◌ (contains-parent_txids (compute_txid info.tx) package_txns) (
        any-filter (λ x. contains x parents) (λ x. contains x known) (prev_output_txids info)
        ∙ shared_parent)
    where
      parents : List Txid
      parents = parent_txids package_txns

      shared_parent :
          any (λ x. contains x known && contains x parents) (prev_output_txids info)
          ≡ any
              (λ i.
                contains i.previous_output.txid known
                && any (spends i.previous_output.txid) package_txns)
              info.tx.input
      shared_parent =
          any-prev_output_txids (λ x. contains x known && contains x parents) info
          ∙ any_ext _ _ info.tx.input λ i.
            ap (λ b. contains i.previous_output.txid known && b)
              (contains-parent_txids i.previous_output.txid package_txns)

  -- Each transaction behind those of `before` is related to one of those that precede it.
  abbrev pub Grows : List TxInfo → List TxInfo → Type 0
  Grows before [] = Unit
  Grows before (t ∷ ts) = (related before t ≡ true) × Grows (before ++ t ∷ []) ts

  -- A package in the order of reading: its first transaction, and related ones.
  abbrev pub Connected : List TxInfo → Type 0
  Connected [] = ⊥
  Connected (t ∷ ts) = Grows (t ∷ []) ts

  -- The next package starts with a transaction that is not related to this one.
  abbrev pub Unrelated : List TxInfo → List TxInfo → Type 0
  Unrelated p [] = ⊥
  Unrelated p (t ∷ ts) = related p t ≡ false

  -- The packages in the order of reading: each is connected, and no one could go on.
  abbrev pub Chain : List TxPackage → Type 0
  Chain [] = Unit
  Chain (p ∷ []) = Connected p.txns
  Chain (p ∷ q ∷ ps) = Connected p.txns × Unrelated p.txns q.txns × Chain (q ∷ ps)

  Grows-snoc :
      (before ts : List TxInfo) (t : TxInfo)
      → Grows before ts
      → related (before ++ ts) t ≡ true
      → Grows before (ts ++ t ∷ [])
  Grows-snoc before [] t g r = (rw append-nil at r, tt)
  Grows-snoc before (u ∷ ts) t g r =
      (g.0, Grows-snoc (before ++ u ∷ []) ts t g.1 (rw append_assoc r))

  Connected-snoc :
      (p : List TxInfo) (t : TxInfo) → Connected p → related p t ≡ true → Connected (p ++ t ∷ [])
  Connected-snoc [] t c r = absurd c
  Connected-snoc (u ∷ ts) t c r = Grows-snoc (u ∷ []) ts t c r

  -- The first transaction of a package stays the first.
  Unrelated-snoc : (p q : List TxInfo) (t : TxInfo) → Unrelated p q → Unrelated p (q ++ t ∷ [])
  Unrelated-snoc p [] t u = absurd u
  Unrelated-snoc p (x ∷ q) t u = u

  Chain-grow :
      (ps : List TxPackage) (p q : TxPackage)
      → ((r : List TxInfo) → Unrelated r p.txns → Unrelated r q.txns)
      → Connected q.txns
      → Chain (ps ++ p ∷ [])
      → Chain (ps ++ q ∷ [])
  Chain-grow [] p q keep c h = c
  Chain-grow (a ∷ []) p q keep c h = (h.0, keep a.txns h.1, c)
  Chain-grow (a ∷ b ∷ ps) p q keep c h = (h.0, h.1, Chain-grow (b ∷ ps) p q keep c h.2)

  Chain-last : (ps : List TxPackage) (p : TxPackage) → Chain (ps ++ p ∷ []) → Connected p.txns
  Chain-last [] p h = h
  Chain-last (a ∷ []) p h = h.2
  Chain-last (a ∷ b ∷ ps) p h = Chain-last (b ∷ ps) p h.2

  Chain-next :
      (ps : List TxPackage) (p q : TxPackage)
      → Unrelated p.txns q.txns
      → Connected q.txns
      → Chain (ps ++ p ∷ [])
      → Chain ((ps ++ p ∷ []) ++ q ∷ [])
  Chain-next [] p q u c h = (h, u, c)
  Chain-next (a ∷ []) p q u c h = (h.0, h.1, (h.2, u, c))
  Chain-next (a ∷ b ∷ ps) p q u c h = (h.0, h.1, Chain-next (b ∷ ps) p q u c h.2)

  -- What holds during the loop.
  abbrev Linked : List TxInfo → List TxPackage → Type 0
  Linked [] packages = packages ≡ []
  Linked (t ∷ ts) packages = Chain (packages ++ record { txns = t ∷ ts } ∷ [])

  Linked-pack :
      (txns : List TxInfo) (packages : List TxPackage) (info : TxInfo)
      → Linked txns packages
      → let s = pack lib known (record { package_txns = txns; packages = packages }) info in
        Linked s.package_txns s.packages
  unfolding pack
  Linked-pack [] packages info h = rw h tt
  Linked-pack (t ∷ ts) packages info h = elim (Bool-cases (belongs lib known (t ∷ ts) info)) [
    | inl q ↦
        let r : related (t ∷ ts) info ≡ true = sym (belongs-related (t ∷ ts) info) ∙ q in
        rw (q, pack)
          (Chain-grow packages (record { txns = t ∷ ts }) (record { txns = t ∷ ts ++ info ∷ [] })
            (λ p. Unrelated-snoc p (t ∷ ts) info)
            (Connected-snoc (t ∷ ts) info (Chain-last packages (record { txns = t ∷ ts }) h) r) h)
    | inr q ↦
        let r : related (t ∷ ts) info ≡ false = sym (belongs-related (t ∷ ts) info) ∙ q in
        rw (q, pack)
          (Chain-next packages (record { txns = t ∷ ts }) (record { txns = info ∷ [] }) r tt h)
  ]

  Chain-loop :
      (infos : List TxInfo) (s : Packing)
      → Linked s.package_txns s.packages
      → Chain (flush (foldl (pack lib known) s infos))
  unfolding flush
  Chain-loop [] s h = at_end s.package_txns s.packages h
    where
      at_end :
          (txns : List TxInfo) (packages : List TxPackage)
          → Linked txns packages
          → Chain (flush (record { package_txns = txns; packages = packages }))
      at_end [] packages h = rw h tt
      at_end (t ∷ ts) packages h = h
  Chain-loop (info ∷ infos) s h =
      Chain-loop infos (pack lib known s info) (Linked-pack s.package_txns s.packages info h)

if_some {ℓ} : {A : Type ℓ} (b : Bool) (x y : A) → (if b then some x else none) ≡ some y → x ≡ y
if_some true x y h = cc
if_some false x y h = cc

-- The packages that `build_packages` returns, read from the last transaction to the first: in each
-- package every transaction behind the first read is a parent of one read before it there, or
-- shares with it a parent of the block or template; and no package could have gone on, since the
-- next one starts with a transaction that is not so related to it.
pub build_packages-Chain :
    (lib : Libraries) (txns : List TxInfo) (packages : List TxPackage)
    → build_packages lib txns ≡ some packages
    → Chain lib (known_txids lib txns) (reverse packages)
unfolding build_packages
build_packages-Chain lib txns packages h =
    let e : reverse (flush (final lib txns)) ≡ packages = if_some _ _ packages h in
    subst (λ ps. Chain lib (known_txids lib txns) (reverse ps)) e
      (rw reverse-reverse (Chain-loop lib (known_txids lib txns) (reverse txns) no_packages refl))
