-- ===== src/Templates/Best.antt =====
-- Which template `select_best_template_for_block` selects.
use miningpool_observer.Prelude.{
  ◌≡◌, refl, sym, ap, ℕ, ◌+◌, ◌*◌, ◌≤◌, ◌<◌, false, ◌⊎◌, inl, inr, some, List, [], ◌∷◌, map, All,
  length, to_set, to_set-Distinct, Distinct, intersection, length-difference,
  length-intersection_comm, ltb, if◌then◌else◌, Bool-cases, list_eq, nat_eq, arith,
}
use miningpool_observer.Bitcoin.{Txid, GetBlockTemplateResult}
use miningpool_observer.Templates.{
  min_from, min_by_key, template_txids, missing_and_extra, select_best_template_for_block,
}

-- The first of the elements of a list that have the least key.
module _ {A : Type 0} (key : A → ℕ) where
  abbrev pub FirstLeast : A → List A → Type 0
  FirstLeast r [] = ⊥
  FirstLeast r (x ∷ xs) =
      ((r ≡ x) × All (λ y. key r ≤ key y) xs) ⊎ ((key r < key x) × FirstLeast r xs)

  FirstLeast-head : (r x : A) (xs : List A) → FirstLeast r (x ∷ xs) → key r ≤ key x
  FirstLeast-head r x xs (inl h) = ground (arith, ap key h.0)
  FirstLeast-head r x xs (inr h) = omega arith

  FirstLeast-skip :
      (r best x : A) (xs : List A)
      → ltb (key x) (key best) ≡ false
      → FirstLeast r (best ∷ xs)
      → FirstLeast r (best ∷ x ∷ xs)
  FirstLeast-skip r best x xs q (inl h) = inl (h.0, (ground (arith, ap key h.0), h.1))
  FirstLeast-skip r best x xs q (inr h) = inr (h.0, inr (ground (arith, h.0), h.1))

  min_from-cons :
      (best x : A) (xs : List A)
      → min_from key best (x ∷ xs)
        ≡ (if ltb (key x) (key best) then min_from key x xs else min_from key best xs)
  unfolding min_from
  min_from-cons best x xs = elim (Bool-cases (ltb (key x) (key best))) [
    | inl q ↦ rw q refl
    | inr q ↦ rw q refl
  ]

  min_from-FirstLeast :
      (best : A) (xs : List A) {r : A} → min_from key best xs ≡ r → FirstLeast r (best ∷ xs)
  unfolding min_from
  min_from-FirstLeast best [] h = inl (sym h, tt)
  min_from-FirstLeast best (x ∷ xs) {r = r} h = elim (Bool-cases (ltb (key x) (key best))) [
    | inl q ↦
        let rest = min_from-FirstLeast x xs {r = r} (ground (arith, min_from-cons best x xs)) in
        let bound = FirstLeast-head r x xs rest in inr (ground arith, rest)
    | inr q ↦
        FirstLeast-skip r best x xs q
          (min_from-FirstLeast best xs {r = r} (ground (arith, min_from-cons best x xs)))
  ]

  -- What holds of all elements holds of it.
  FirstLeast-All {κ} : (P : A → Type κ) (r : A) (xs : List A) → FirstLeast r xs → All P xs → P r
  FirstLeast-All P r [] h k = absurd h
  FirstLeast-All P r (x ∷ xs) (inl h) k = rw h.0 k.0
  FirstLeast-All P r (x ∷ xs) (inr h) k = FirstLeast-All P r xs h.1 k.1

-- On a queue that is not empty there is no panic, and the first of the templates is selected for
-- which the missing and the extra transactions are the fewest.
pub select_best_template_for_block-FirstLeast :
    (t : GetBlockTemplateResult) (ts : List GetBlockTemplateResult) (block_txids : List Txid)
    → (best : GetBlockTemplateResult) × (select_best_template_for_block (t ∷ ts) block_txids
        ≡ some best)
      × FirstLeast (missing_and_extra block_txids) best (t ∷ ts)
unfolding select_best_template_for_block min_by_key
select_best_template_for_block-FirstLeast t ts block_txids = (
  min_from (missing_and_extra block_txids) t ts,
  refl,
  min_from-FirstLeast (missing_and_extra block_txids) t ts refl,
)

-- What the selected template satisfies if all do.
pub select_best_template_for_block-All {κ} :
    (P : GetBlockTemplateResult → Type κ) (ts : List GetBlockTemplateResult)
    (block_txids : List Txid) (best : GetBlockTemplateResult)
    → select_best_template_for_block ts block_txids ≡ some best
    → All P ts
    → P best
unfolding select_best_template_for_block min_by_key
select_best_template_for_block-All P [] block_txids best h k = absurd (ground arith)
select_best_template_for_block-All P (t ∷ ts) block_txids best h k =
    let key = missing_and_extra block_txids in
    FirstLeast-All key P best (t ∷ ts) (min_from-FirstLeast key t ts (ground arith)) k

-- For a set of txids of a block, the key of a template and twice the number of shared transactions
-- are together the number of transactions of the block and of the template.
missing_and_extra-shared :
    (block_txids : List Txid) (t : GetBlockTemplateResult)
    → Distinct block_txids
    → missing_and_extra block_txids t + 2 * length (intersection block_txids (template_txids t))
      ≡ length block_txids + length (template_txids t)
unfolding missing_and_extra
missing_and_extra-shared block_txids t d =
    let txids = map (λ tx. tx.txid) t.transactions in
    ground (
      arith,
      length-difference block_txids (to_set txids),
      length-difference (to_set txids) block_txids,
      length-intersection_comm block_txids (to_set txids) d (to_set-Distinct txids),
    )
