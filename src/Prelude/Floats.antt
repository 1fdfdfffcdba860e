-- ===== src/Prelude/Floats.antt =====
-- The arithmetic of `f32` on counts, by IEEE 754: 24 bits, rounded to the nearest, ties to even.
use Prim.Native.Nat.{ℕ, zero, suc, ◌+◌, ◌-◌, ◌*◌, ◌/◌, ◌%◌, ◌^◌, ◌<◌, ◌≤◌}
use native.Mathlib.Omega.{arith}
use native.Mathlib.Nat.{pow-suc, mul-one, mul-le-mul_right, div-eq_of_lt-le}
use mathlib.Core.Path.{◌≡◌, refl, ap, ◌∙◌, subst}
use mathlib.Core.Logic.{inl, inr}
use mathlib.Core.Bool.{true, false, ◌&&◌, ◌||◌}
use miningpool_observer.Prelude.Tests.{ltb, leb, eqb, if◌then◌else◌, Bool-cases}

-- The number `mantissa / 2 ^ scale`.
pub record Float : Type 0 where
  pub mantissa : ℕ
  pub scale : ℕ

unfoldable pub round_div : ℕ → ℕ → ℕ
round_div a b =
    let q = a / b in
    let r = a % b in if ltb b (2 * r) || (eqb b (2 * r) && eqb (q % 2) 1) then q + 1 else q

-- How many bits the integer has over 24.
unfoldable pub excess : ℕ → ℕ → ℕ
excess zero n = 0
excess (suc fuel) n = let rest = excess fuel (n / 2) in if ltb n (2 ^ 24) then 0 else suc rest

-- `as f32` on an integer of 64 bits.
unfoldable pub float_of : ℕ → Float
unfolding excess round_div
float_of n = let unit = 2 ^ excess 64 n in record { mantissa = round_div n unit * unit; scale = 0 }

-- By how many bits `a` is shifted until the quotient has 24 bits.
unfoldable pub scale_for : ℕ → ℕ → ℕ → ℕ
scale_for zero a b = 0
scale_for (suc fuel) a b =
    let rest = scale_for fuel (2 * a) b in if leb (2 ^ 23) (a / b) then 0 else suc rest

-- The nearest number to `a / b`.
unfoldable pub quotient : ℕ → ℕ → Float
unfolding excess round_div scale_for
quotient a b =
    let unit = 2 ^ excess 64 (a / b) in
    let s = scale_for 64 a b in
    if leb (2 ^ 23) (a / b)
    then record { mantissa = round_div a (b * unit) * unit; scale = 0 }
    else record { mantissa = round_div (a * 2 ^ s) b; scale = s }

unfoldable pub float_div : Float → Float → Float
unfolding quotient
float_div x y = quotient (x.mantissa * 2 ^ y.scale) (y.mantissa * 2 ^ x.scale)

-- `ceil() as u32`, which saturates.
unfoldable pub ceil_as_u32 : Float → ℕ
ceil_as_u32 x =
    let unit = 2 ^ x.scale in
    let up = (x.mantissa + (unit - 1)) / unit in if ltb up (2 ^ 32) then up else 2 ^ 32 - 1

excess-small : (fuel n : ℕ) → n < 2 ^ 24 → excess (suc fuel) n ≡ 0
unfolding excess
excess-small fuel n h = ground arith

round_div-one : (n : ℕ) → round_div n 1 ≡ n
unfolding round_div
round_div-one n = ground arith

float_of-small : (n : ℕ) → n < 2 ^ 24 → float_of n ≡ record { mantissa = n; scale = 0 }
unfolding float_of
float_of-small n h =
    ap (λ e. record { mantissa = round_div n (2 ^ e) * 2 ^ e; scale = 0 }) (excess-small 63 n h)
    ∙ ap (λ m. record { mantissa = m; scale = 0 }) (mul-one (round_div n 1) ∙ round_div-one n)

round_div-25 : (a : ℕ) → (50 * round_div a 25 ≤ 2 * a + 25) × (2 * a ≤ 50 * round_div a 25 + 25)
unfolding round_div
round_div-25 a = (ground arith, ground arith)

double-shift : (a n : ℕ) → 2 * a * 2 ^ n ≡ a * 2 ^ suc n
double-shift a n = let p = pow-suc 2 n in grind arith

-- The shift is enough.
scale_for-enough :
    (fuel a : ℕ) → 25 * 2 ^ 23 ≤ a * 2 ^ fuel → 25 * 2 ^ 23 ≤ a * 2 ^ scale_for fuel a 25
unfolding scale_for
scale_for-enough zero a h = h
scale_for-enough (suc fuel) a h = elim (Bool-cases (leb (2 ^ 23) (a / 25))) [
  | inl q ↦ rw q (ground arith)
  | inr q ↦
      let next : 25 * 2 ^ 23 ≤ 2 * a * 2 ^ fuel = rw (double-shift a fuel) h in
      let found = scale_for-enough fuel (2 * a) next in
      rw q (subst (λ k. 25 * 2 ^ 23 ≤ k) (double-shift a (scale_for fuel (2 * a) 25)) found)
]

-- A rounded quotient with at least 5 bits behind the point has the ceiling of the quotient.
ceil_of_rounded :
    (a k m : ℕ)
    → 50 * m ≤ 2 * (a * k) + 25
    → 2 * (a * k) ≤ 50 * m + 25
    → 13 ≤ k
    → (m + (k - 1)) / k ≡ (a + 24) / 25
ceil_of_rounded a k m above below fine =
    let split : a * k ≡ 25 * (a / 25 * k) + a % 25 * k =
      let d : a ≡ 25 * (a / 25) + a % 25 = omega arith in ap (λ n. n * k) d ∙ grind arith in
    let least : (c : ℕ) → c ≤ a % 25 → c * k ≤ a % 25 * k = λ c l. mul-le-mul_right k l in
    let most : a % 25 * k ≤ 24 * k = mul-le-mul_right k (omega arith) in
    elim (Bool-cases (eqb (a % 25) 0)) [
      | inl z ↦
          let divides : a % 25 ≡ 0 = ground arith in
          let none_left : a % 25 * k ≡ 0 = rw divides (omega arith) in
          let whole : (a / 25 + 1) * k ≡ a / 25 * k + k = grind arith in
          let pages : (m + (k - 1)) / k ≡ a / 25 = div-eq_of_lt-le k (omega arith) (omega arith) in
          let same : a / 25 ≡ (a + 24) / 25 = ground arith in pages ∙ same
      | inr z ↦
          let some_left : 1 * k ≤ a % 25 * k = least 1 (ground arith) in
          let next : (a / 25 + 1) * k ≡ a / 25 * k + k = grind arith in
          let after : (a / 25 + 1 + 1) * k ≡ a / 25 * k + k + k = grind arith in
          let pages : (m + (k - 1)) / k ≡ a / 25 + 1 =
            div-eq_of_lt-le k (omega arith) (omega arith) in
          let same : a / 25 + 1 ≡ (a + 24) / 25 = ground arith in pages ∙ same
    ]

quotient_small :
    (a : ℕ)
    → a < 2 ^ 24
    → quotient a 25
      ≡ record { mantissa = round_div (a * 2 ^ scale_for 64 a 25) 25; scale = scale_for 64 a 25 }
unfolding quotient
quotient_small a h = let small : leb (2 ^ 23) (a / 25) ≡ false = ground arith in rw small refl

fine_scale : (a k : ℕ) → a < 2 ^ 24 → 25 * 2 ^ 23 ≤ a * k → 13 ≤ k
fine_scale a k h e = let most : a * k ≤ 2 ^ 24 * k = mul-le-mul_right k (omega arith) in omega arith

zero_pages : ceil_as_u32 (float_div (float_of 0) (float_of 25)) ≡ 0
unfolding ceil_as_u32 float_div float_of
zero_pages = refl

-- Below 2^24, which an `f32` holds exactly, the division by 25 rounds, but never to another number
-- of pages.
pub ceil-div_25 :
    (a : ℕ) → a < 2 ^ 24 → ceil_as_u32 (float_div (float_of a) (float_of 25)) ≡ (a + 24) / 25
unfolding ceil_as_u32 float_div
ceil-div_25 zero h = let none : 0 ≡ (0 + 24) / 25 = omega arith in zero_pages ∙ none
ceil-div_25 (suc n) h =
    let a = suc n in
    let s = scale_for 64 a 25 in
    let m = round_div (a * 2 ^ s) 25 in
    let (above, below) = round_div-25 (a * 2 ^ s) in
    let enough = scale_for-enough 64 a (omega arith) in
    let up : (m + (2 ^ s - 1)) / 2 ^ s ≡ (a + 24) / 25 =
      ceil_of_rounded a (2 ^ s) m above below (fine_scale a (2 ^ s) h enough) in
    let exact : float_div (float_of a) (float_of 25) ≡ quotient a 25 =
      ap (λ x. float_div x (float_of 25)) (float_of-small a h)
      ∙ ap (λ y. float_div (record { mantissa = a; scale = 0 }) y) (float_of-small 25 (omega arith))
      ∙ ap (λ b. quotient b 25) (mul-one a) in
    ap ceil_as_u32 (exact ∙ quotient_small a h) ∙ saturates m s up
  where
    saturates :
        (m s : ℕ)
        → (m + (2 ^ s - 1)) / 2 ^ s ≡ (suc n + 24) / 25
        → ceil_as_u32 (record { mantissa = m; scale = s }) ≡ (suc n + 24) / 25
    saturates m s up =
        let fits : ltb ((m + (2 ^ s - 1)) / 2 ^ s) (2 ^ 32) ≡ true = rw up (ground arith) in
        rw fits up
