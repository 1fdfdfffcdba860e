-- ===== src/Web/Util/Numbers.antt =====
-- The numbers that `parse_uint` reads.
use miningpool_observer.Prelude.{
  ◌≡◌, refl, ℕ, ◌+◌, ◌-◌, ◌*◌, ◌^◌, ◌≤◌, ◌<◌, Bool, true, ◌&&◌, inl, inr, none, some, [], ◌∷◌,
  is_empty, not, ltb, leb, eqb, if◌then◌else◌, Bool-cases, arith,
}
use miningpool_observer.Prelude.Outcomes.{returned, failed}
use miningpool_observer.Bitcoin.{Text}
use miningpool_observer.Web.Util.{not_found, parse_digits, parse_u32, parse_uint}

-- The decimal value of some digits behind others.
abbrev pub decimal : ℕ → Text → ℕ
decimal acc [] = acc
decimal acc (c ∷ cs) = decimal (acc * 10 + (c - 48)) cs

abbrev pub all_digits : Text → Bool
all_digits [] = true
all_digits (c ∷ cs) = leb 48 c && leb c 57 && all_digits cs

decimal_grows : (acc : ℕ) (cs : Text) → acc ≤ decimal acc cs
decimal_grows acc [] = omega arith
decimal_grows acc (c ∷ cs) = omega (arith, decimal_grows (acc * 10 + (c - 48)) cs)

parse_digits-decimal :
    (acc : ℕ) (cs : Text)
    → acc < 2 ^ 32
    → parse_digits acc cs
      ≡ (if all_digits cs && ltb (decimal acc cs) (2 ^ 32) then some (decimal acc cs) else none)
unfolding parse_digits
parse_digits-decimal acc [] h = ground arith
parse_digits-decimal acc (c ∷ cs) h =
    let next = acc * 10 + (c - 48) in
    elim (Bool-cases (ltb next (2 ^ 32))) [
      | inl q ↦ ground (arith, parse_digits-decimal next cs)
      | inr q ↦ ground (arith, decimal_grows next cs)
    ]

-- The text without the sign `+`, which needs something behind it.
abbrev pub unsigned_text : Text → Text
unsigned_text [] = []
unsigned_text (c ∷ []) = c ∷ []
unsigned_text (c ∷ d ∷ cs) = if eqb c 43 then d ∷ cs else c ∷ d ∷ cs

-- A page number is accepted exactly if it is one or more digits, behind an optional `+`, whose value
-- is below 2^32, and then it is this value; the check on each digit misses no overflow. All else is
-- a 404.
pub parse_uint-decimal :
    (text : Text)
    → let digits = unsigned_text text in
      parse_uint text ≡ (
        if not (is_empty digits) && all_digits digits && ltb (decimal 0 digits) (2 ^ 32)
        then returned (decimal 0 digits)
        else failed not_found)
unfolding parse_uint parse_u32
parse_uint-decimal [] = refl
parse_uint-decimal (c ∷ []) = ground (arith, parse_digits-decimal 0 (c ∷ []))
parse_uint-decimal (c ∷ d ∷ cs) = elim (Bool-cases (eqb c 43)) [
  | inl q ↦ ground (arith, parse_digits-decimal 0 (d ∷ cs))
  | inr q ↦ ground (arith, parse_digits-decimal 0 (c ∷ d ∷ cs))
]
