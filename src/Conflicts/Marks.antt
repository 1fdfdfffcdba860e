-- ===== src/Conflicts/Marks.antt =====
-- The marks on the conflicts of `build_conflicting_transactions`, and which outpoints the
-- conflicts hold.
use miningpool_observer.Prelude.{
  ◌≡◌, refl, ap, ◌∙◌, Bool, true, false, not, ◌&&◌, ◌||◌, inl, inr, List, [], ◌∷◌, map, All, filter,
  contains, any, any-append, flat_map, is_empty, PartialEq, ◌==◌, beq→eq, list_eq, nat_eq,
  Bool-cases, arith, if◌then◌else◌,
}
use miningpool_observer.Bitcoin.{OutPoint, outpoint_eq}
use miningpool_observer.Model.{TxInfo, txinfo_eq}
use miningpool_observer.Conflicts.{
  Conflict, conflict_eq, Marked, mark_existing, referenced_conflicts, push_new, extend_conflict,
  emptied, replace_referenced,
}

-- One of the conflicts holds the outpoint.
abbrev pub held : OutPoint → List Conflict → Bool
held o cs = any (λ c. contains o c.conflicting_outpoints) cs

-- A conflict without transactions holds no outpoint.
abbrev pub solid : Conflict → Bool
solid c = not (is_empty c.template_transactions) || is_empty c.conflicting_outpoints

abbrev pub Solid : List Conflict → Type 0
Solid = All (λ c. solid c ≡ true)

no_outpoint : (o : OutPoint) (os : List OutPoint) → is_empty os ≡ true → contains o os ≡ false
no_outpoint o [] h = refl
no_outpoint o (p ∷ os) h = absurd (ground arith)

abbrev pub is_filled : Conflict → Bool
is_filled c = not (is_empty c.template_transactions)

pub held-filter :
    (o : OutPoint) (cs : List Conflict) → Solid cs → held o (filter is_filled cs) ≡ held o cs
held-filter o [] h = refl
held-filter o (c ∷ cs) h =
    ground (arith, held-filter o cs h.1, no_outpoint o c.conflicting_outpoints)

pub filter-Solid : (cs : List Conflict) → Solid cs → Solid (filter is_filled cs)
filter-Solid [] h = tt
filter-Solid (c ∷ cs) h = elim (Bool-cases (is_empty c.template_transactions)) [
  | inl q ↦ rw q (filter-Solid cs h.1)
  | inr q ↦ rw q (ground arith, filter-Solid cs h.1)
]

contains-push_new :
    {A : Type 0} ⦃e : PartialEq A⦄ (a b : A) (xs : List A)
    → contains a (push_new b xs) ≡ (a == b) || contains a xs
contains-push_new a b xs = elim (Bool-cases (contains b xs)) [
  | inl q ↦ elim (Bool-cases (a == b)) [
    | inl r ↦ ground (arith, beq→eq a b r)
    | inr r ↦ ground arith
  ]
  | inr q ↦ ground (arith, any-append (λ x. a == x) xs (b ∷ []))
]

pub any-flat_map :
    {A B : Type 0} (p : B → Bool) (f : A → List B) (xs : List A)
    → any p (flat_map f xs) ≡ any (λ x. any p (f x)) xs
any-flat_map p f [] = refl
any-flat_map p f (x ∷ xs) =
    any-append p (f x) (flat_map f xs) ∙ ap (λ b. any p (f x) || b) (any-flat_map p f xs)

pub is_empty-any : {A : Type 0} (xs : List A) → is_empty xs ≡ not (any (λ x. true) xs)
is_empty-any [] = refl
is_empty-any (x ∷ xs) = refl

-- The conflicts that no reference points to.
abbrev pub unreferenced : OutPoint → List Marked → Bool
unreferenced o ms = any (λ m. not m.referenced && contains o m.conflict.conflicting_outpoints) ms

abbrev pub any_referenced : List Marked → Bool
any_referenced ms = any (λ m. m.referenced) ms

pub conflicts-mark_existing :
    (t b : TxInfo) (cs existing : List Conflict)
    → map (λ m. m.conflict) (mark_existing t b existing cs) ≡ cs
unfolding mark_existing
conflicts-mark_existing t b [] existing = refl
conflicts-mark_existing t b (c ∷ cs) existing = ap (λ l. c ∷ l) (conflicts-mark_existing t b cs _)

pub held_split :
    (o : OutPoint) (ms : List Marked)
    → held o (map (λ m. m.conflict) ms) ≡ held o (referenced_conflicts ms) || unreferenced o ms
held_split o [] = refl
held_split o (m ∷ ms) = elim (Bool-cases m.referenced) [
  | inl q ↦ ground (arith, held_split o ms)
  | inr q ↦ ground (arith, held_split o ms)
]

pub any_referenced-filter :
    (ms : List Marked) → any_referenced ms ≡ not (is_empty (referenced_conflicts ms))
any_referenced-filter [] = refl
any_referenced-filter (m ∷ ms) = elim (Bool-cases m.referenced) [
  | inl q ↦ ground arith
  | inr q ↦ ground (arith, any_referenced-filter ms)
]

pub held-replace_referenced :
    (o : OutPoint) (merged : Conflict) (ms : List Marked)
    → held o (replace_referenced merged ms)
      ≡ (any_referenced ms && contains o merged.conflicting_outpoints) || unreferenced o ms
unfolding replace_referenced
held-replace_referenced o merged [] = refl
held-replace_referenced o merged (m ∷ ms) = elim (Bool-cases m.referenced) [
  | inl q ↦ ground (arith, held-replace_referenced o emptied ms)
  | inr q ↦ ground (arith, held-replace_referenced o merged ms)
]

pub replace_referenced-Solid :
    (merged : Conflict) (ms : List Marked)
    → solid merged ≡ true
    → Solid (map (λ m. m.conflict) ms)
    → Solid (replace_referenced merged ms)
unfolding replace_referenced
replace_referenced-Solid merged [] s h = tt
replace_referenced-Solid merged (m ∷ ms) s h = elim (Bool-cases m.referenced) [
  | inl q ↦ (ground arith, rw q (replace_referenced-Solid emptied ms refl h.1))
  | inr q ↦ (ground arith, rw q (replace_referenced-Solid merged ms s h.1))
]

abbrev pub extend_marked : TxInfo → TxInfo → OutPoint → Marked → Conflict
extend_marked t b co m = if m.referenced then extend_conflict t b co m.conflict else m.conflict

pub held-extend :
    (o : OutPoint) (t b : TxInfo) (co : OutPoint) (ms : List Marked)
    → held o (map (extend_marked t b co) ms)
      ≡ (any_referenced ms && (o == co)) || held o (map (λ m. m.conflict) ms)
held-extend o t b co [] = refl
held-extend o t b co (m ∷ ms) = elim (Bool-cases m.referenced) [
  | inl q ↦
      ground
        (arith, held-extend o t b co ms, contains-push_new o co m.conflict.conflicting_outpoints)
  | inr q ↦ ground (arith, held-extend o t b co ms)
]

push_new_filled : (t : TxInfo) (ts : List TxInfo) → is_empty (push_new t ts) ≡ false
push_new_filled t [] = refl
push_new_filled t (u ∷ ts) = elim (Bool-cases (contains t (u ∷ ts))) [
  | inl q ↦ ground arith
  | inr q ↦ ground arith
]

pub extend-Solid :
    (t b : TxInfo) (co : OutPoint) (ms : List Marked)
    → Solid (map (λ m. m.conflict) ms)
    → Solid (map (extend_marked t b co) ms)
extend-Solid t b co [] h = tt
extend-Solid t b co (m ∷ ms) h = (
  elim (Bool-cases m.referenced) [
    | inl q ↦ ground (arith, push_new_filled t m.conflict.template_transactions)
    | inr q ↦ ground (arith, h.0)
  ],
  extend-Solid t b co ms h.1,
)
