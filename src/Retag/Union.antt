-- ===== src/Retag/Union.antt =====
-- The tags of a transaction that is tagged again.
use miningpool_observer.Prelude.{
  ◌≡◌, sym, ◌∙◌, ◌||◌, inl, inr, List, [], ◌∷◌, ◌++◌, contains, any-append, contains-sort, sort,
  count, count-append, count-sort, count_none, sort-Ascending, Ascending-ext, ◌==◌, beq→eq, ℤ,
  int_eq, int_order, if◌then◌else◌, Bool-cases, arith,
}
use miningpool_observer.Bitcoin.{Text, Tx, Libraries}
use miningpool_observer.Model.{TxInfo}
use miningpool_observer.Tagging.{retag_transaction}
use miningpool_observer.Retag.{push_old, old_and_new}

contains-push_old :
    (a : ℤ) (old new : List ℤ) → contains a (push_old old new) ≡ contains a new || contains a old
unfolding push_old
contains-push_old a [] new = ground arith
contains-push_old a (tag ∷ old) new = elim (Bool-cases (contains tag new)) [
  | inl h ↦ elim (Bool-cases (a == tag)) [
    | inl q ↦ ground (arith, contains-push_old a old new, beq→eq a tag q)
    | inr q ↦ ground (arith, contains-push_old a old new)
  ]
  | inr h ↦
      ground
        (arith, contains-push_old a old (new ++ tag ∷ []), any-append (λ x. a == x) new (tag ∷ []))
]

-- A tag that is new is there as often as before, an added one once.
count-push_old :
    (a : ℤ) (old new : List ℤ)
    → count a (push_old old new)
      ≡ (if contains a new then count a new else if contains a old then 1 else 0)
unfolding push_old
count-push_old a [] new = elim (Bool-cases (contains a new)) [
  | inl h ↦ ground arith
  | inr h ↦ ground (arith, count_none a new)
]
count-push_old a (tag ∷ old) new = elim (Bool-cases (contains tag new)) [
  | inl h ↦ elim (Bool-cases (a == tag)) [
    | inl q ↦ ground (arith, count-push_old a old new, beq→eq a tag q)
    | inr q ↦ ground (arith, count-push_old a old new)
  ]
  | inr h ↦
      let rest = count-push_old a old (new ++ tag ∷ []) in
      let there = any-append (λ x. a == x) new (tag ∷ []) in
      let times = count-append a new (tag ∷ []) in
      elim (Bool-cases (contains a new)) [
        | inl k ↦ elim (Bool-cases (a == tag)) [
          | inl q ↦ absurd (ground (arith, beq→eq a tag q))
          | inr q ↦ ground (arith, rest, there, times)
        ]
        | inr k ↦ ground (arith, rest, there, times, count_none a new)
      ]
]

count-push_old_again :
    (a : ℤ) (old old' new : List ℤ)
    → contains a old' ≡ contains a (push_old old new)
    → count a (push_old old' new) ≡ count a (push_old old new)
count-push_old_again a old old' new h =
    ground (arith, count-push_old a old new, count-push_old a old' new, contains-push_old a old new)

module _ (lib : Libraries) (addresses : List Text) (tx : Tx) (info : TxInfo) where
  abbrev fresh : List ℤ
  fresh = retag_transaction lib tx info addresses

  -- The new tags of a transaction are those that it had and those that it would get today: no tag
  -- is lost, not even those that retagging does not find.
  pub contains-old_and_new :
      (tag : ℤ) (tags : List ℤ)
      → contains tag (old_and_new lib addresses tx info tags).1
        ≡ contains tag (retag_transaction lib tx info addresses) || contains tag tags
  unfolding old_and_new
  contains-old_and_new tag tags = ground (
    arith,
    contains-sort tag (push_old (sort tags) fresh),
    contains-push_old tag (sort tags) fresh,
    contains-sort tag tags,
  )

  -- Retagging twice is retagging once: on the tags that it gave, the comparison finds no difference,
  -- and nothing is updated.
  pub old_and_new-idempotent :
      (tags : List ℤ)
      → let tags' = (old_and_new lib addresses tx info tags).1 in
        (old_and_new lib addresses tx info tags').1 ≡ (old_and_new lib addresses tx info tags').0
  unfolding old_and_new
  old_and_new-idempotent tags =
      let first = push_old (sort tags) fresh in
      let again = sort (sort first) in
      Ascending-ext (sort (push_old again fresh)) again (sort-Ascending (push_old again fresh))
        (sort-Ascending (sort first))
        (λ a.
          count-sort a (push_old again fresh)
          ∙ count-push_old_again a (sort tags) again fresh
              (contains-sort a (sort first) ∙ contains-sort a first)
          ∙ sym (count-sort a (sort first) ∙ count-sort a first))
