-- ===== src/Prelude/Words.antt =====
-- Signed integers, and the casts `as i32`, `as i64`, `as u32` of the source with their wrap-around.
use Prim.Native.Nat.{ℕ, ◌-◌, ◌*◌, ◌%◌, ◌^◌, ◌<◌}
use mathlib.Core.Path.{◌≡◌}
use mathlib.Core.Bool.{Bool, true, false}
use native.Mathlib.Omega.{arith}
use mathlib.Core.Logic.{◌↔◌}
use miningpool_observer.Prelude.Tests.{ltb, leb, eqb, if◌then◌else◌}
use miningpool_observer.Prelude.Classes.{PartialEq, Order}

-- `negsuc n` is -(n + 1).
pub data ℤ : Type 0 where
  pos : ℕ → ℤ
  negsuc : ℕ → ℤ

abbrev pub int_beq : ℤ → ℤ → Bool
int_beq (pos a) (pos b) = eqb a b
int_beq (negsuc a) (negsuc b) = eqb a b
int_beq _ _ = false

pub int_beq_iff : (a b : ℤ) → (int_beq a b ≡ true) ↔ (a ≡ b)
int_beq_iff (pos a) (pos b) = ground arith
int_beq_iff a b = ground arith

instance abbrev pub int_eq : PartialEq ℤ
int_eq = record { equal = int_beq; equal_iff = int_beq_iff }

abbrev pub int_le : ℤ → ℤ → Bool
int_le (pos a) (pos b) = leb a b
int_le (pos a) (negsuc b) = false
int_le (negsuc a) (pos b) = true
int_le (negsuc a) (negsuc b) = leb b a

pub int_total : (a b : ℤ) → int_le a b ≡ false → int_le b a ≡ true
int_total a b h = ground arith

pub int_trans : (a b c : ℤ) → int_le a b ≡ true → int_le b c ≡ true → int_le a c ≡ true
int_trans a b c h k = ground arith

pub int_antisymm : (a b : ℤ) → int_le a b ≡ true → int_le b a ≡ true → a ≡ b
int_antisymm a b h k = ground arith

instance abbrev pub int_order : Order ℤ
int_order = record {
  le = int_le;
  le_total = int_total;
  le_trans = int_trans;
  le_antisymm = int_antisymm;
}

-- The signed reading of a bit pattern of the given modulus.
abbrev signed : ℕ → ℕ → ℤ
signed modulus r = if ltb (r * 2) modulus then pos r else negsuc (modulus - 1 - r)

-- The bit pattern of a signed value.
abbrev unsigned : ℕ → ℤ → ℕ
unsigned modulus (pos n) = n % modulus
unsigned modulus (negsuc n) = modulus - 1 - n % modulus

unfoldable pub as_i32 : ℕ → ℤ
as_i32 n = signed (2 ^ 32) (n % 2 ^ 32)

unfoldable pub as_i64 : ℕ → ℤ
as_i64 n = signed (2 ^ 64) (n % 2 ^ 64)

unfoldable pub as_u32 : ℤ → ℕ
as_u32 z = unsigned (2 ^ 32) z

unfoldable pub as_u64 : ℤ → ℕ
as_u64 z = unsigned (2 ^ 64) z

pub as_i32-pos : (n : ℕ) → n < 2 ^ 31 → as_i32 n ≡ pos n
unfolding as_i32
as_i32-pos n h = ground arith

pub as_u32-as_i32 : (n : ℕ) → n < 2 ^ 32 → as_u32 (as_i32 n) ≡ n
unfolding as_u32 as_i32
as_u32-as_i32 n h = ground arith
