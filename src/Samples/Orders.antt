-- ===== src/Samples/Orders.antt =====
-- The lexicographic order of lists of numbers, for the sample's orders.
use miningpool_observer.Prelude.{
  ◌≡◌, refl, ℕ, Bool, true, false, ◌&&◌, ◌||◌, List, [], ◌∷◌, ltb, eqb, Order, arith,
}

abbrev pub list_le : List ℕ → List ℕ → Bool
list_le [] ys = true
list_le (x ∷ xs) [] = false
list_le (x ∷ xs) (y ∷ ys) = ltb x y || eqb x y && list_le xs ys

pub list_total : (xs ys : List ℕ) → list_le xs ys ≡ false → list_le ys xs ≡ true
list_total [] ys h = absurd (ground arith)
list_total (x ∷ xs) [] h = refl
list_total (x ∷ xs) (y ∷ ys) h = ground (arith, list_total xs ys)

pub list_trans :
    (xs ys zs : List ℕ) → list_le xs ys ≡ true → list_le ys zs ≡ true → list_le xs zs ≡ true
list_trans [] ys zs h k = refl
list_trans (x ∷ xs) [] zs h k = absurd (ground arith)
list_trans (x ∷ xs) (y ∷ ys) [] h k = absurd (ground arith)
list_trans (x ∷ xs) (y ∷ ys) (z ∷ zs) h k = ground (arith, list_trans xs ys zs)

pub list_antisymm : (xs ys : List ℕ) → list_le xs ys ≡ true → list_le ys xs ≡ true → xs ≡ ys
list_antisymm [] [] h k = refl
list_antisymm [] (y ∷ ys) h k = absurd (ground arith)
list_antisymm (x ∷ xs) [] h k = absurd (ground arith)
list_antisymm (x ∷ xs) (y ∷ ys) h k = ground (arith, list_antisymm xs ys)

abbrev pub list_order : Order (List ℕ)
list_order = record {
  le = list_le;
  le_total = list_total;
  le_trans = list_trans;
  le_antisymm = list_antisymm;
}
