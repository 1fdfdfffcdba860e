-- ===== src/Transactions/Counts.antt =====
-- The counts of input and output types.
use miningpool_observer.Prelude.{
  ℕ, suc, ◌+◌, ◌≡◌, List, [], ◌∷◌, foldl, filter, length, lookup, lookup-insert, PartialEq, ◌==◌,
  beq→eq, Option-cases, Bool-cases, inl, inr, arith, if◌then◌else◌,
}
use miningpool_observer.Tagging.{unwrap_or}
use miningpool_observer.Transactions.{count_type, count_types}

module _ {T : Type 0} ⦃e : PartialEq T⦄ where
  abbrev pub count_of : T → List (T × ℕ) → ℕ
  count_of t counts = unwrap_or 0 (lookup t counts)

  count_of-count_type :
      (t u : T) (counts : List (T × ℕ))
      → count_of t (count_type counts u)
        ≡ (if t == u then suc (count_of t counts) else count_of t counts)
  count_of-count_type t u counts = elim (Option-cases (lookup u counts)) [
    | inl h ↦ elim (Bool-cases (t == u)) [
      | inl q ↦ ground (arith, lookup-insert u t 1 counts, beq→eq t u q)
      | inr q ↦ ground (arith, lookup-insert u t 1 counts)
    ]
    | inr (n, h) ↦ elim (Bool-cases (t == u)) [
      | inl q ↦ ground (arith, lookup-insert u t (n + 1) counts, beq→eq t u q)
      | inr q ↦ ground (arith, lookup-insert u t (n + 1) counts)
    ]
  ]

  count_from :
      (t : T) (ts : List T) (counts : List (T × ℕ))
      → count_of t (foldl count_type counts ts)
        ≡ length (filter (λ u. t == u) ts) + count_of t counts
  count_from t [] counts = omega arith
  count_from t (u ∷ ts) counts =
      ground (arith, count_from t ts (count_type counts u), count_of-count_type t u counts)

  -- The count of a type is the number of inputs or outputs that have it.
  count_of-count_types :
      (t : T) (ts : List T) → count_of t (count_types ts) ≡ length (filter (λ u. t == u) ts)
  unfolding count_types
  count_of-count_types t ts = omega (arith, count_from t ts [])
