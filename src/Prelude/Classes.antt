-- ===== src/Prelude/Classes.antt =====
-- `PartialEq` and `Ord` of the source as interfaces, with instances for the types in use.
use Prim.Native.Nat.{ℕ}
use mathlib.Core.Path.{◌≡◌, refl, subst}
use mathlib.Core.List.{List, [], ◌∷◌}
use mathlib.Core.Logic.{◌↔◌}
use mathlib.Core.Bool.{Bool, true, false, ◌&&◌}
use native.Mathlib.Omega.{arith}
use miningpool_observer.Prelude.Tests.{eqb, eqb_iff, leb}

pub record PartialEq {ℓ} (A : Type ℓ) : Type ℓ where
  pub equal : A → A → Bool
  pub equal_iff : (a b : A) → (equal a b ≡ true) ↔ (a ≡ b)

instance abbrev pub nat_eq : PartialEq ℕ
nat_eq = record { equal = eqb; equal_iff = eqb_iff }

module _ {ℓ} {A : Type ℓ} where
  abbrev pub decide_eq : Discrete A → A → A → Bool
  decide_eq d a b = elim (d a b) [ yes _ ↦ true | no _ ↦ false ]

  pub decide_eq_iff : (d : Discrete A) (a b : A) → (decide_eq d a b ≡ true) ↔ (a ≡ b)
  decide_eq_iff d a b = ground arith

  -- A derived `PartialEq`.
  abbrev pub eq_of_discrete : Discrete A → PartialEq A
  eq_of_discrete d = record { equal = decide_eq d; equal_iff = decide_eq_iff d }

-- A total order, as `Ord` documents it.
pub record Order {ℓ} (A : Type ℓ) : Type ℓ where
  pub le : A → A → Bool
  pub le_total : (a b : A) → le a b ≡ false → le b a ≡ true
  pub le_trans : (a b c : A) → le a b ≡ true → le b c ≡ true → le a c ≡ true
  pub le_antisymm : (a b : A) → le a b ≡ true → le b a ≡ true → a ≡ b

pub nat_total : (a b : ℕ) → leb a b ≡ false → leb b a ≡ true
nat_total a b h = ground arith

pub nat_trans : (a b c : ℕ) → leb a b ≡ true → leb b c ≡ true → leb a c ≡ true
nat_trans a b c h k = ground arith

pub nat_antisymm : (a b : ℕ) → leb a b ≡ true → leb b a ≡ true → a ≡ b
nat_antisymm a b h k = ground arith

instance abbrev pub nat_order : Order ℕ
nat_order = record {
  le = leb;
  le_total = nat_total;
  le_trans = nat_trans;
  le_antisymm = nat_antisymm;
}

-- `a == b` of the source.
infix 50 ◌==◌
abbrev pub ◌==◌ {ℓ} : {A : Type ℓ} ⦃source : PartialEq A⦄ → A → A → Bool
◌==◌ ⦃source⦄ a b = source.equal a b

module _ {ℓ} {A : Type ℓ} ⦃e : PartialEq A⦄ where
  abbrev pub list_beq : List A → List A → Bool
  list_beq [] [] = true
  list_beq [] (y ∷ ys) = false
  list_beq (x ∷ xs) [] = false
  list_beq (x ∷ xs) (y ∷ ys) = x == y && list_beq xs ys

  list_sound : (xs ys : List A) → list_beq xs ys ≡ true → xs ≡ ys
  list_sound [] [] h = refl
  list_sound [] (y ∷ ys) h = cc
  list_sound (x ∷ xs) [] h = cc
  list_sound (x ∷ xs) (y ∷ ys) h = ground (arith, (e.equal_iff x y).0, list_sound xs ys)

  list_complete : (xs : List A) → list_beq xs xs ≡ true
  list_complete [] = refl
  list_complete (x ∷ xs) = ground (arith, (e.equal_iff x x).1 refl, list_complete xs)

  pub list_beq_iff : (xs ys : List A) → (list_beq xs ys ≡ true) ↔ (xs ≡ ys)
  list_beq_iff xs ys =
      (list_sound xs ys, λ h. subst (λ zs. list_beq xs zs ≡ true) h (list_complete xs))

instance abbrev pub list_eq {ℓ} : {A : Type ℓ} ⦃e : PartialEq A⦄ → PartialEq (List A)
list_eq = record { equal = list_beq; equal_iff = list_beq_iff }

module _ {ℓ κ} {A : Type ℓ} {B : Type κ} ⦃e : PartialEq A⦄ ⦃f : PartialEq B⦄ where
  abbrev pub pair_beq : A × B → A × B → Bool
  pair_beq p q = p.0 == q.0 && p.1 == q.1

  pub pair_beq_iff : (p q : A × B) → (pair_beq p q ≡ true) ↔ (p ≡ q)
  pair_beq_iff p q = (
    λ h. ground (arith, (e.equal_iff p.0 q.0).0, (f.equal_iff p.1 q.1).0),
    λ h. rw h (ground (arith, (e.equal_iff q.0 q.0).1 refl, (f.equal_iff q.1 q.1).1 refl)),
  )

instance abbrev pub pair_eq {ℓ κ} :
    {A : Type ℓ} {B : Type κ} ⦃e : PartialEq A⦄ ⦃f : PartialEq B⦄ → PartialEq (A × B)
pair_eq = record { equal = pair_beq; equal_iff = pair_beq_iff }
