-- ===== src/Prelude/Maps.antt =====
-- `HashMap`: an association list in its iteration order.
use mathlib.Core.Path.{◌≡◌, refl, ◌∙◌}
use mathlib.Core.Logic.{inl, inr}
use mathlib.Core.Bool.{Bool, true, false, ◌||◌}
use mathlib.Core.List.{List, [], ◌∷◌, map, foldl}
use mathlib.Core.Option.{Option, none, some}
use native.Mathlib.Omega.{arith}
use miningpool_observer.Prelude.Tests.{if◌then◌else◌, Bool-cases}
use miningpool_observer.Prelude.Classes.{PartialEq, ◌==◌}
use miningpool_observer.Prelude.Sets.{contains, beq_comm, beq_test}

abbrev pub is_some {ℓ} : {A : Type ℓ} → Option A → Bool
is_some none = false
is_some (some a) = true

module _ {ℓ κ} {K : Type ℓ} {V : Type κ} ⦃e : PartialEq K⦄ where
  -- `map.get(k)`.
  abbrev pub lookup : K → List (K × V) → Option V
  lookup k [] = none
  lookup k ((j, v) ∷ m) = if k == j then some v else lookup k m

  -- `map.insert(k, v)`: an old value of the key is replaced.
  unfoldable pub insert : K → V → List (K × V) → List (K × V)
  insert k v [] = (k, v) ∷ []
  insert k v ((j, w) ∷ m) = if k == j then (j, v) ∷ m else (j, w) ∷ insert k v m

  -- `iter().collect::<HashMap<_, _>>()`: a later pair wins.
  unfoldable pub to_map : List (K × V) → List (K × V)
  unfolding insert
  to_map = foldl (λ m p. insert p.0 p.1 m) []

  abbrev pub keys : List (K × V) → List K
  keys = map (λ p. p.0)

  pub lookup-insert :
      (k j : K) (v : V) (m : List (K × V))
      → lookup j (insert k v m) ≡ (if j == k then some v else lookup j m)
  unfolding insert
  lookup-insert k j v [] = refl
  lookup-insert k j v ((i, w) ∷ m) = elim (Bool-cases (k == i)) [
    | inl h ↦ ground (arith, beq_test (λ x. j == x) k i h)
    | inr h ↦ elim (Bool-cases (j == i)) [
      | inl q ↦ ground (arith, beq_test (λ x. x == k) j i q, beq_comm i k)
      | inr q ↦ ground (arith, lookup-insert k j v m)
    ]
  ]

  -- A key is found exactly when it is among the keys.
  pub is_some-lookup : (k : K) (m : List (K × V)) → is_some (lookup k m) ≡ contains k (keys m)
  is_some-lookup k [] = refl
  is_some-lookup k ((j, v) ∷ m) = ground (arith, is_some-lookup k m)

  collect : List (K × V) → List (K × V) → List (K × V)
  collect m ps = foldl (λ n p. insert p.0 p.1 n) m ps

  is_some-collect :
      (k : K) (m ps : List (K × V))
      → is_some (lookup k (collect m ps)) ≡ contains k (keys ps) || is_some (lookup k m)
  unfolding collect
  is_some-collect k m [] = refl
  is_some-collect k m (p ∷ ps) =
      ground (arith, is_some-collect k (insert p.0 p.1 m) ps, lookup-insert p.0 k p.1 m)

  -- A collected map has exactly the keys of the pairs.
  pub is_some-to_map :
      (k : K) (ps : List (K × V)) → is_some (lookup k (to_map ps)) ≡ contains k (keys ps)
  unfolding to_map collect
  is_some-to_map k ps = is_some-collect k [] ps ∙ or_false (contains k (keys ps))
    where
      or_false : (b : Bool) → b || false ≡ b
      or_false b = ground arith
