-- ===== src/Prelude/Sorting.antt =====
-- `sort`, `sort_by_key`, `dedup` and `dedup_by_key`, and the lists that they leave: strictly
-- ascending ones, which are equal as soon as they have the same elements.
use Prim.Native.Nat.{suc}
use mathlib.Core.Path.{◌≡◌, refl, ap, subst, ◌∙◌}
use mathlib.Core.Logic.{inl, inr}
use mathlib.Core.Bool.{Bool, true, false, ◌||◌}
use mathlib.Core.List.{List, [], ◌∷◌}
use native.Mathlib.Omega.{arith}
use miningpool_observer.Prelude.Tests.{if◌then◌else◌, Bool-cases}
use miningpool_observer.Prelude.Classes.{PartialEq, ◌==◌, Order}
use miningpool_observer.Prelude.Lists.{length, any, All, All-mono}
use miningpool_observer.Prelude.Sets.{contains, beq→eq, beq_refl, beq_test}

module _ {ℓ κ} {A : Type ℓ} {K : Type κ} ⦃o : Order K⦄ (key : A → K) where
  unfoldable pub insert_by : A → List A → List A
  insert_by a [] = a ∷ []
  insert_by a (x ∷ xs) =
      let rest = insert_by a xs in if o.le (key a) (key x) then a ∷ x ∷ xs else x ∷ rest

  unfoldable pub sort_by_key : List A → List A
  unfolding insert_by
  sort_by_key [] = []
  sort_by_key (x ∷ xs) = insert_by x (sort_by_key xs)

  any-insert_by : (p : A → Bool) (a : A) (xs : List A) → any p (insert_by a xs) ≡ p a || any p xs
  unfolding insert_by
  any-insert_by p a [] = refl
  any-insert_by p a (x ∷ xs) = ground (arith, any-insert_by p a xs)

  pub any-sort_by_key : (p : A → Bool) (xs : List A) → any p (sort_by_key xs) ≡ any p xs
  unfolding sort_by_key
  any-sort_by_key p [] = refl
  any-sort_by_key p (x ∷ xs) =
      ground (arith, any-insert_by p x (sort_by_key xs), any-sort_by_key p xs)

  length-insert_by : (a : A) (xs : List A) → length (insert_by a xs) ≡ suc (length xs)
  unfolding insert_by
  length-insert_by a [] = refl
  length-insert_by a (x ∷ xs) = ground (arith, length-insert_by a xs)

  pub length-sort_by_key : (xs : List A) → length (sort_by_key xs) ≡ length xs
  unfolding sort_by_key
  length-sort_by_key [] = refl
  length-sort_by_key (x ∷ xs) =
      ground (arith, length-insert_by x (sort_by_key xs), length-sort_by_key xs)

  insert_by-Every {μ} :
      (P : A → Type μ) (a : A) (xs : List A) → P a → All P xs → All P (insert_by a xs)
  unfolding insert_by
  insert_by-Every P a [] h k = (h, tt)
  insert_by-Every P a (x ∷ xs) h k = elim (Bool-cases (o.le (key a) (key x))) [
    | inl q ↦ rw q (h, k)
    | inr q ↦ rw q (k.0, insert_by-Every P a xs h k.1)
  ]

  pub sort_by_key-All {μ} : (P : A → Type μ) (xs : List A) → All P xs → All P (sort_by_key xs)
  unfolding sort_by_key
  sort_by_key-All P [] h = tt
  sort_by_key-All P (x ∷ xs) h = insert_by-Every P x (sort_by_key xs) h.0 (sort_by_key-All P xs h.1)

  -- Ascending by key.
  abbrev pub Ascending : List A → Type 0
  Ascending [] = Unit
  Ascending (x ∷ xs) = All (λ y. o.le (key x) (key y) ≡ true) xs × Ascending xs

  insert_by-All :
      (a b : A) (xs : List A)
      → o.le (key b) (key a) ≡ true
      → All (λ y. o.le (key b) (key y) ≡ true) xs
      → All (λ y. o.le (key b) (key y) ≡ true) (insert_by a xs)
  unfolding insert_by
  insert_by-All a b [] h k = (h, tt)
  insert_by-All a b (x ∷ xs) h k = elim (Bool-cases (o.le (key a) (key x))) [
    | inl q ↦ rw q (h, k)
    | inr q ↦ rw q (k.0, insert_by-All a b xs h k.1)
  ]

  below-All :
      (a x : A) (xs : List A)
      → o.le (key a) (key x) ≡ true
      → All (λ y. o.le (key x) (key y) ≡ true) xs
      → All (λ y. o.le (key a) (key y) ≡ true) xs
  below-All a x [] h k = tt
  below-All a x (y ∷ ys) h k = (o.le_trans (key a) (key x) (key y) h k.0, below-All a x ys h k.1)

  insert_by-Ascending : (a : A) (xs : List A) → Ascending xs → Ascending (insert_by a xs)
  unfolding insert_by
  insert_by-Ascending a [] h = (tt, tt)
  insert_by-Ascending a (x ∷ xs) h = elim (Bool-cases (o.le (key a) (key x))) [
    | inl q ↦ rw q ((q, below-All a x xs q h.0), (h.0, h.1))
    | inr q ↦
        rw q (insert_by-All a x xs (o.le_total (key a) (key x) q) h.0, insert_by-Ascending a xs h.1)
  ]

  pub sort_by_key-Ascending : (xs : List A) → Ascending (sort_by_key xs)
  unfolding sort_by_key
  sort_by_key-Ascending [] = tt
  sort_by_key-Ascending (x ∷ xs) = insert_by-Ascending x (sort_by_key xs) (sort_by_key-Ascending xs)

module _ {ℓ κ} {A : Type ℓ} {K : Type κ} ⦃e : PartialEq K⦄ (key : A → K) where
  -- What stays of the elements behind `x`, the last one kept.
  dedup_after : A → List A → List A
  dedup_after x [] = []
  dedup_after x (y ∷ ys) =
      let same = key x == key y in
      let rest = dedup_after (if same then x else y) ys in if same then rest else y ∷ rest

  unfoldable pub dedup_by_key : List A → List A
  unfolding dedup_after
  dedup_by_key [] = []
  dedup_by_key (x ∷ xs) = x ∷ dedup_after x xs

  dedup_after-All {μ} : (P : A → Type μ) (x : A) (ys : List A) → All P ys → All P (dedup_after x ys)
  unfolding dedup_after
  dedup_after-All P x [] h = tt
  dedup_after-All P x (y ∷ ys) h = elim (Bool-cases (key x == key y)) [
    | inl q ↦ rw (q, dedup_after) (dedup_after-All P x ys h.1)
    | inr q ↦ rw (q, dedup_after) (h.0, dedup_after-All P y ys h.1)
  ]

  pub dedup_by_key-All {μ} : (P : A → Type μ) (xs : List A) → All P xs → All P (dedup_by_key xs)
  unfolding dedup_by_key
  dedup_by_key-All P [] h = tt
  dedup_by_key-All P (x ∷ xs) h = (h.0, dedup_after-All P x xs h.1)

  module _ (p : A → Bool) (respects : (x y : A) → (key x == key y) ≡ true → p x ≡ p y) where
    any-dedup_after : (x : A) (ys : List A) → p x || any p (dedup_after x ys) ≡ p x || any p ys
    unfolding dedup_after
    any-dedup_after x [] = refl
    any-dedup_after x (y ∷ ys) = elim (Bool-cases (key x == key y)) [
      | inl h ↦ rw (h, dedup_after) (ground (arith, any-dedup_after x ys, respects x y h))
      | inr h ↦ rw (h, dedup_after) (ground (arith, any-dedup_after y ys))
    ]

    pub any-dedup_by_key : (xs : List A) → any p (dedup_by_key xs) ≡ any p xs
    unfolding dedup_by_key
    any-dedup_by_key [] = refl
    any-dedup_by_key (x ∷ xs) = any-dedup_after x xs

module _ {ℓ} {A : Type ℓ} ⦃o : Order A⦄ where
  unfoldable pub sort : List A → List A
  unfolding sort_by_key
  sort = sort_by_key (λ x. x)

module _ {ℓ} {A : Type ℓ} ⦃e : PartialEq A⦄ where
  unfoldable pub dedup : List A → List A
  unfolding dedup_by_key
  dedup = dedup_by_key (λ x. x)

module _ {ℓ} {A : Type ℓ} ⦃o : Order A⦄ ⦃e : PartialEq A⦄ where
  pub contains-sort : (a : A) (xs : List A) → contains a (sort xs) ≡ contains a xs
  unfolding sort
  contains-sort a xs = any-sort_by_key (λ x. x) (λ x. a == x) xs

  pub contains-dedup : (a : A) (xs : List A) → contains a (dedup xs) ≡ contains a xs
  unfolding dedup
  contains-dedup a xs = any-dedup_by_key (λ x. x) (λ x. a == x) (beq_test (λ x. a == x)) xs

  -- Strictly ascending: sorted, and no element twice.
  abbrev pub Below : A → A → Type 0
  Below x y = (o.le x y ≡ true) × ((x == y) ≡ false)

  abbrev pub Strict : List A → Type 0
  Strict [] = Unit
  Strict (x ∷ xs) = All (Below x) xs × Strict xs

  le-Below : (x y z : A) → o.le x y ≡ true → Below y z → Below x z
  le-Below x y z h b = (
    o.le_trans x y z h b.0,
    elim (Bool-cases (x == z)) [
      | inl k ↦
          let q : o.le z y ≡ true = subst (λ t. o.le t y ≡ true) (beq→eq x z k) h in
          let r : y ≡ z = o.le_antisymm y z b.0 q in absurd (ground (arith, (e.equal_iff y z).1 r))
      | inr k ↦ k
    ],
  )

  All-le-Below : (x y : A) (zs : List A) → o.le x y ≡ true → All (Below y) zs → All (Below x) zs
  All-le-Below x y zs h = All-mono (Below y) (Below x) zs (λ z. le-Below x y z h)

  dedup_after-Strict :
      (x : A) (ys : List A) → Ascending (λ z. z) (x ∷ ys) → Strict (x ∷ dedup_after (λ z. z) x ys)
  unfolding dedup_after
  dedup_after-Strict x [] h = (tt, tt)
  dedup_after-Strict x (y ∷ ys) h = elim (Bool-cases (x == y)) [
    | inl q ↦ rw (q, dedup_after) (dedup_after-Strict x ys (h.0.1, h.1.1))
    | inr q ↦
        let rest = dedup_after-Strict y ys h.1 in
        rw (q, dedup_after) (((h.0.0, q), All-le-Below x y _ h.0.0 rest.0), rest)
  ]

  -- What `sort` and then `dedup` leaves is strictly ascending.
  pub dedup-sort-Strict : (xs : List A) → Strict (dedup (sort xs))
  unfolding dedup sort
  dedup-sort-Strict xs = go (sort_by_key (λ z. z) xs) (sort_by_key-Ascending (λ z. z) xs)
    where
      go : (ys : List A) → Ascending (λ z. z) ys → Strict (dedup_by_key (λ z. z) ys)
      go [] h = tt
      go (y ∷ ys) h = dedup_after-Strict y ys h

  pub contains-dedup-sort : (a : A) (xs : List A) → contains a (dedup (sort xs)) ≡ contains a xs
  contains-dedup-sort a xs = contains-dedup a (sort xs) ∙ contains-sort a xs

  not_contains : (x : A) (ys : List A) → All (Below x) ys → contains x ys ≡ false
  not_contains x [] h = refl
  not_contains x (y ∷ ys) h = ground (arith, not_contains x ys h.1)

  Below-of_contains :
      (x a : A) (ys : List A) → All (Below x) ys → contains a ys ≡ true → o.le x a ≡ true
  Below-of_contains x a [] h k = cc
  Below-of_contains x a (y ∷ ys) h k = elim (Bool-cases (a == y)) [
    | inl q ↦ rw (beq→eq a y q) h.0.0
    | inr q ↦ Below-of_contains x a ys h.1 (ground arith)
  ]

  le_of_contains :
      (x a : A) (ys : List A) → Strict (x ∷ ys) → contains a (x ∷ ys) ≡ true → o.le x a ≡ true
  le_of_contains x a ys s h = elim (Bool-cases (a == x)) [
    | inl q ↦ rw (beq→eq a x q) (refl_le x)
    | inr q ↦ Below-of_contains x a ys s.0 (ground arith)
  ]
    where
      refl_le : (x : A) → o.le x x ≡ true
      refl_le x = elim (Bool-cases (o.le x x)) [ inl h ↦ h | inr h ↦ o.le_total x x h ]

  -- Two strictly ascending lists with the same elements are equal.
  pub Strict-ext :
      (xs ys : List A) → Strict xs → Strict ys → ((a : A) → contains a xs ≡ contains a ys) → xs ≡ ys
  Strict-ext [] [] s t h = refl
  Strict-ext [] (y ∷ ys) s t h = absurd (ground (arith, h y, beq_refl y))
  Strict-ext (x ∷ xs) [] s t h = absurd (ground (arith, h x, beq_refl x))
  Strict-ext (x ∷ xs) (y ∷ ys) s t h =
      let in_ys : contains x (y ∷ ys) ≡ true = ground (arith, h x, beq_refl x) in
      let in_xs : contains y (x ∷ xs) ≡ true = ground (arith, h y, beq_refl y) in
      let same : x ≡ y =
        o.le_antisymm x y (le_of_contains x y xs s in_xs) (le_of_contains y x ys t in_ys) in
      cons_path same (Strict-ext xs ys s.1 t.1 (tails same))
    where
      cons_path : x ≡ y → xs ≡ ys → x ∷ xs ≡ y ∷ ys
      cons_path p q = cc

      tails : x ≡ y → (a : A) → contains a xs ≡ contains a ys
      tails p a = elim (Bool-cases (a == x)) [
        | inl q ↦
            let ax = beq→eq a x q in rw (ax, not_contains x xs s.0) (rw (p, not_contains y ys t.0))
        | inr q ↦ ground (arith, h a, ap (λ (z : A). a == z) p)
      ]
