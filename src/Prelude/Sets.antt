-- ===== src/Prelude/Sets.antt =====
-- `HashSet`: a list in its iteration order, read through `contains`.
use Prim.Native.Nat.{◌+◌}
use mathlib.Core.Path.{◌≡◌, refl, ap}
use mathlib.Core.Logic.{inl, inr}
use mathlib.Core.Bool.{Bool, true, false, not, ◌&&◌, ◌||◌}
use mathlib.Core.List.{List, [], ◌∷◌}
use native.Mathlib.Omega.{arith}
use miningpool_observer.Prelude.Tests.{if◌then◌else◌, Bool-cases}
use miningpool_observer.Prelude.Classes.{PartialEq, ◌==◌}
use miningpool_observer.Prelude.Lists.{length, any, filter, length-filter-not}

module _ {ℓ} {A : Type ℓ} ⦃e : PartialEq A⦄ where
  -- `set.contains(a)`, and `vec.contains(a)`.
  abbrev pub contains : A → List A → Bool
  contains a xs = any (λ x. a == x) xs

  -- `set.insert(a)`.
  abbrev pub set_insert : A → List A → List A
  set_insert a xs = if contains a xs then xs else a ∷ xs

  -- `iter().collect::<HashSet<_>>()`.
  abbrev pub to_set : List A → List A
  to_set [] = []
  to_set (x ∷ xs) = set_insert x (to_set xs)

  -- `a.difference(b)` and `a.intersection(b)`.
  abbrev pub difference : List A → List A → List A
  difference xs ys = filter (λ x. not (contains x ys)) xs

  abbrev pub intersection : List A → List A → List A
  intersection xs ys = filter (λ x. contains x ys) xs

  -- No element twice.
  abbrev pub Distinct : List A → Type 0
  Distinct [] = Unit
  Distinct (x ∷ xs) = (contains x xs ≡ false) × Distinct xs

module _ {ℓ} {A : Type ℓ} ⦃e : PartialEq A⦄ where
  pub beq_refl : (a : A) → (a == a) ≡ true
  beq_refl a = (e.equal_iff a a).1 refl

  pub beq→eq : (a b : A) → (a == b) ≡ true → a ≡ b
  beq→eq a b = (e.equal_iff a b).0

  -- Equal elements pass the same tests.
  pub beq_test : (p : A → Bool) (a b : A) → (a == b) ≡ true → p a ≡ p b
  beq_test p a b h = ap p (beq→eq a b h)

  pub beq_comm : (a b : A) → (a == b) ≡ (b == a)
  beq_comm a b = elim (Bool-cases (a == b)) [
    | inl h ↦ rw (beq→eq a b h)
    | inr h ↦ elim (Bool-cases (b == a)) [ inl k ↦ rw (beq→eq b a k) | inr k ↦ cc ]
  ]

  -- A test on all elements, as a test on one that is held to be there.
  pub contains-filter :
      (a : A) (q : A → Bool) (xs : List A) → contains a (filter q xs) ≡ q a && contains a xs
  contains-filter a q [] = elim (Bool-cases (q a)) [ inl h ↦ rw h | inr h ↦ rw h ]
  contains-filter a q (x ∷ xs) = elim (Bool-cases (a == x)) [
    | inl h ↦ ground (arith, contains-filter a q xs, beq_test q a x h)
    | inr h ↦ ground (arith, contains-filter a q xs)
  ]

  pub contains-difference :
      (a : A) (xs ys : List A)
      → contains a (difference xs ys) ≡ not (contains a ys) && contains a xs
  contains-difference a xs ys = contains-filter a (λ x. not (contains x ys)) xs

  pub contains-intersection :
      (a : A) (xs ys : List A) → contains a (intersection xs ys) ≡ contains a ys && contains a xs
  contains-intersection a xs ys = contains-filter a (λ x. contains x ys) xs

  pub contains-set_insert :
      (a b : A) (xs : List A) → contains a (set_insert b xs) ≡ (a == b) || contains a xs
  contains-set_insert a b xs = elim (Bool-cases (contains b xs)) [
    | inl h ↦ elim (Bool-cases (a == b)) [
      | inl k ↦ ground (arith, beq_test (λ x. contains x xs) a b k)
      | inr k ↦ ground arith
    ]
    | inr h ↦ rw h
  ]

  pub contains-to_set : (a : A) (xs : List A) → contains a (to_set xs) ≡ contains a xs
  contains-to_set a [] = refl
  contains-to_set a (x ∷ xs) =
      ground (arith, contains-set_insert a x (to_set xs), contains-to_set a xs)

  pub set_insert-Distinct : (a : A) (xs : List A) → Distinct xs → Distinct (set_insert a xs)
  set_insert-Distinct a xs d = elim (Bool-cases (contains a xs)) [
    | inl h ↦ rw h d
    | inr h ↦ rw h (h, d)
  ]

  pub to_set-Distinct : (xs : List A) → Distinct (to_set xs)
  to_set-Distinct [] = tt
  to_set-Distinct (x ∷ xs) = set_insert-Distinct x (to_set xs) (to_set-Distinct xs)

  -- An element passes a test if some equal element does.
  pub any_of_contains :
      (p : A → Bool) (a : A) (xs : List A) → contains a xs ≡ true → p a ≡ true → any p xs ≡ true
  any_of_contains p a [] h k = h
  any_of_contains p a (x ∷ xs) h k = elim (Bool-cases (a == x)) [
    | inl q ↦ ground (arith, beq_test p a x q)
    | inr q ↦ ground (arith, any_of_contains p a xs)
  ]

  -- A set is cut in two by another.
  pub length-difference :
      (xs ys : List A) → length (intersection xs ys) + length (difference xs ys) ≡ length xs
  length-difference xs ys = length-filter-not (λ x. contains x ys) xs

  count_self : (a : A) (ys : List A) → contains a ys ≡ false → length (filter (λ y. y == a) ys) ≡ 0
  count_self a [] h = refl
  count_self a (y ∷ ys) h = ground (arith, beq_comm a y, count_self a ys)

  count_one :
      (a : A) (ys : List A)
      → Distinct ys
      → length (filter (λ y. y == a) ys) ≡ (if contains a ys then 1 else 0)
  count_one a [] d = refl
  count_one a (y ∷ ys) d = elim (Bool-cases (a == y)) [
    | inl h ↦ ground (arith, beq_comm a y, count_self a ys, beq_test (λ x. contains x ys) a y h)
    | inr h ↦ ground (arith, beq_comm a y, count_one a ys d.1)
  ]

  count_cons :
      (a : A) (xs ys : List A)
      → contains a xs ≡ false
      → length (intersection ys (a ∷ xs))
        ≡ length (filter (λ y. y == a) ys) + length (intersection ys xs)
  count_cons a xs [] h = refl
  count_cons a xs (y ∷ ys) h = elim (Bool-cases (y == a)) [
    | inl k ↦ ground (arith, count_cons a xs ys h, beq_test (λ x. contains x xs) y a k)
    | inr k ↦ ground (arith, count_cons a xs ys h)
  ]

  intersection_nil : (ys : List A) → intersection ys [] ≡ []
  intersection_nil [] = refl
  intersection_nil (y ∷ ys) = intersection_nil ys

  -- Two sets share as many elements seen from either side.
  pub length-intersection_comm :
      (xs ys : List A)
      → Distinct xs
      → Distinct ys
      → length (intersection xs ys) ≡ length (intersection ys xs)
  length-intersection_comm [] ys d f = rw (intersection_nil ys)
  length-intersection_comm (x ∷ xs) ys d f =
      ground (arith, count_cons x xs ys d.0, count_one x ys f, length-intersection_comm xs ys d.1 f)

  difference_none :
      (xs ys : List A)
      → ((a : A) → contains a xs ≡ true → contains a ys ≡ true)
      → length (difference xs ys) ≡ 0
  difference_none [] ys h = refl
  difference_none (x ∷ xs) ys h =
      ground (arith, h x, beq_refl x, difference_none xs ys (λ a k. h a (ground arith)))

  no_element : (a : A) (xs : List A) → length xs ≡ 0 → contains a xs ≡ false
  no_element a [] h = refl
  no_element a (x ∷ xs) h = absurd (ground arith)

  -- A set with as many elements as one that it is a part of is the whole of it.
  pub contains_of_same_length :
      (xs ys : List A) (a : A)
      → Distinct xs
      → Distinct ys
      → ((b : A) → contains b xs ≡ true → contains b ys ≡ true)
      → length xs ≡ length ys
      → contains a ys ≡ contains a xs
  contains_of_same_length xs ys a d f h e =
      let none_left = no_element a (difference ys xs) in
      elim (Bool-cases (contains a xs)) [
        | inl k ↦ ground (arith, h a)
        | inr k ↦ ground (
          arith,
          none_left,
          contains-difference a ys xs,
          difference_none xs ys h,
          length-difference xs ys,
          length-difference ys xs,
          length-intersection_comm xs ys d f,
        )
      ]

  any-set_insert : (p : A → Bool) (a : A) (xs : List A) → any p (set_insert a xs) ≡ p a || any p xs
  any-set_insert p a xs = elim (Bool-cases (contains a xs)) [
    | inl h ↦ ground (arith, any_of_contains p a xs h)
    | inr h ↦ rw h
  ]

  -- A set passes the same tests as the list that it is collected from.
  pub any-to_set : (p : A → Bool) (xs : List A) → any p (to_set xs) ≡ any p xs
  any-to_set p [] = refl
  any-to_set p (x ∷ xs) = ground (arith, any-set_insert p x (to_set xs), any-to_set p xs)
