-- ===== src/Prelude/Counting.antt =====
-- How often an element is in a list: two ascending lists with the same counts are equal.
use Prim.Native.Nat.{ℕ, suc, ◌+◌, ◌<◌}
use mathlib.Core.Path.{◌≡◌, refl, ap}
use mathlib.Core.Logic.{inl, inr}
use mathlib.Core.Bool.{true, false}
use mathlib.Core.List.{List, [], ◌∷◌, ◌++◌}
use native.Mathlib.Omega.{arith}
use miningpool_observer.Prelude.Tests.{if◌then◌else◌, Bool-cases}
use miningpool_observer.Prelude.Classes.{PartialEq, ◌==◌, Order}
use miningpool_observer.Prelude.Lists.{All}
use miningpool_observer.Prelude.Sets.{contains, beq→eq, beq_refl}
use miningpool_observer.Prelude.Sorting.{
  Ascending, insert_by, sort_by_key, sort, sort_by_key-Ascending,
}

module _ {ℓ} {A : Type ℓ} ⦃e : PartialEq A⦄ where
  abbrev pub count : A → List A → ℕ
  count a [] = 0
  count a (x ∷ xs) = let rest = count a xs in if a == x then suc rest else rest

  pub count-append : (a : A) (xs ys : List A) → count a (xs ++ ys) ≡ count a xs + count a ys
  count-append a [] ys = omega arith
  count-append a (x ∷ xs) ys = ground (arith, count-append a xs ys)

  -- What is not there is there no time.
  pub count_none : (a : A) (xs : List A) → contains a xs ≡ false → count a xs ≡ 0
  count_none a [] h = refl
  count_none a (x ∷ xs) h = ground (arith, count_none a xs)

  pub count_some : (a : A) (xs : List A) → contains a xs ≡ true → 0 < count a xs
  count_some a [] h = absurd (ground arith)
  count_some a (x ∷ xs) h = ground (arith, count_some a xs)

module _ {ℓ} {A : Type ℓ} ⦃o : Order A⦄ ⦃e : PartialEq A⦄ where
  count-insert_by : (a x : A) (xs : List A) → count a (insert_by (λ z. z) x xs) ≡ count a (x ∷ xs)
  unfolding insert_by
  count-insert_by a x [] = refl
  count-insert_by a x (y ∷ ys) = ground (arith, count-insert_by a x ys)

  pub count-sort : (a : A) (xs : List A) → count a (sort xs) ≡ count a xs
  unfolding sort sort_by_key
  count-sort a [] = refl
  count-sort a (x ∷ xs) = ground (arith, count-insert_by a x (sort xs), count-sort a xs)

  abbrev Sorted : List A → Type 0
  Sorted = Ascending (λ z. z)

  pub sort-Ascending : (xs : List A) → Ascending (λ z. z) (sort xs)
  unfolding sort
  sort-Ascending = sort_by_key-Ascending (λ z. z)

  below_of_count :
      (x a : A) (ys : List A) → All (λ y. o.le x y ≡ true) ys → 0 < count a ys → o.le x a ≡ true
  below_of_count x a [] h k = absurd (ground arith)
  below_of_count x a (y ∷ ys) h k = elim (Bool-cases (a == y)) [
    | inl q ↦ rw (beq→eq a y q) h.0
    | inr q ↦ below_of_count x a ys h.1 (ground arith)
  ]

  refl_le : (x : A) → o.le x x ≡ true
  refl_le x = elim (Bool-cases (o.le x x)) [ inl h ↦ h | inr h ↦ o.le_total x x h ]

  head_le : (x a : A) (xs : List A) → Sorted (x ∷ xs) → 0 < count a (x ∷ xs) → o.le x a ≡ true
  head_le x a xs s = below_of_count x a (x ∷ xs) (refl_le x, s.0)

  -- Two ascending lists with the same counts are equal.
  pub Ascending-ext :
      (xs ys : List A)
      → Ascending (λ z. z) xs
      → Ascending (λ z. z) ys
      → ((a : A) → count a xs ≡ count a ys)
      → xs ≡ ys
  Ascending-ext [] [] s t h = refl
  Ascending-ext [] (y ∷ ys) s t h = absurd (ground (arith, h y, beq_refl y))
  Ascending-ext (x ∷ xs) [] s t h = absurd (ground (arith, h x, beq_refl x))
  Ascending-ext (x ∷ xs) (y ∷ ys) s t h =
      let same : x ≡ y =
        o.le_antisymm x y (head_le x y xs s (ground (arith, h y, beq_refl y)))
          (head_le y x ys t (ground (arith, h x, beq_refl x))) in
      cons_path same
        (Ascending-ext xs ys s.1 t.1 (λ a. ground (arith, h a, ap (λ (z : A). a == z) same)))
    where
      cons_path : x ≡ y → xs ≡ ys → x ∷ xs ≡ y ∷ ys
      cons_path p q = cc
