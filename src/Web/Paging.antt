-- ===== src/Web/Paging.antt =====
-- The pages of a list together.
use miningpool_observer.Prelude.{ℕ, zero, suc, List, [], ◌++◌}
use miningpool_observer.Prelude.Outcomes.{Outcome, panicked, failed, returned}
use miningpool_observer.Web.{DbError}

-- The first `k` pages, one behind the other.
abbrev pub first_pages : {A : Type 0} → (ℕ → List A) → ℕ → List A
first_pages page zero = []
first_pages page (suc k) = first_pages page k ++ page k

-- The rows of an answer.
abbrev pub shown : {A : Type 0} → Outcome DbError (List A × ℕ) → List A
shown (returned r) = r.0
shown panicked = []
shown (failed e) = []
