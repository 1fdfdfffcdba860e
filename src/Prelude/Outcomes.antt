-- ===== src/Prelude/Outcomes.antt =====
-- Code that returns a `Result` and may panic.
use Prim.Native.Char.{code}
use Prim.Native.String.{String}
use Prim.Native.Nat.{ℕ}
use mathlib.Core.Path.{◌≡◌, refl}
use mathlib.Core.Logic.{◌⊎◌, inl, inr}
use mathlib.Core.List.{List, [], ◌∷◌}
use mathlib.Core.Option.{Option, none, some}

pub data Outcome (E A : Type 0) : Type 0 where
  panicked : Outcome E A
  failed : E → Outcome E A
  returned : A → Outcome E A

-- A chain of `?`.
infixl 5 ◌>>=◌
abbrev pub ◌>>=◌ : {E A B : Type 0} → Outcome E A → (A → Outcome E B) → Outcome E B
panicked >>= f = panicked
failed e >>= f = failed e
returned a >>= f = f a

-- `ok_or(e)?`.
abbrev pub ok_or : {E A : Type 0} → E → Option A → Outcome E A
ok_or e none = failed e
ok_or e (some a) = returned a

-- `unwrap` and `expect`.
abbrev pub expect : {E A : Type 0} → Option A → Outcome E A
expect none = panicked
expect (some a) = returned a

pub Outcome-cases :
    {E A : Type 0} (o : Outcome E A)
    → (o ≡ panicked) ⊎ ((e : E) × (o ≡ failed e)) ⊎ ((a : A) × (o ≡ returned a))
Outcome-cases panicked = inl refl
Outcome-cases (failed e) = inr (inl (e, refl))
Outcome-cases (returned a) = inr (inr (a, refl))

-- The bytes of an ASCII constant.
abbrev pub ascii : String → List ℕ
ascii String.[] = []
ascii (String.◌∷◌ c s) = code c ∷ ascii s
