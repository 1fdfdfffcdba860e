-- ===== src/MainLoop/Reachable.antt =====
-- What holds of the templates on every run of the main loop.
use mathlib.Core.Path.{subst}
use miningpool_observer.Prelude.{
  ◌≡◌, ◌≢◌, refl, sym, ◌∙◌, ℕ, suc, ◌+◌, ◌-◌, ◌≤◌, Bool, true, false, inl, inr, some, List, [], ◌∷◌,
  ◌++◌, last?, length, length-append, All, All-append, Bool-cases, ltb, if◌then◌else◌, list_eq,
  nat_eq, arith,
}
use miningpool_observer.Bitcoin.{BlockHash, GetBlockTemplateResult, Libraries}
use miningpool_observer.Process.{Answers, Progress, done}
use miningpool_observer.Process.Clearing.{process-templates_after}
use miningpool_observer.MainLoop.{
  Rpc, Event, missed_block, push_back_bounded, pop_front, max_old_templates, Run, start, turn,
}
use miningpool_observer.MainLoop.Turns.{main_loop_turn-Step}
use miningpool_observer.MainLoop.Steps.{Step, wait, first, push, compare, catch}

-- All templates build on this block.
abbrev pub BuiltOn : BlockHash → List GetBlockTemplateResult → Type 0
BuiltOn h = All (λ t. t.previous_block_hash ≡ h)

abbrev pub SameParent : List GetBlockTemplateResult → Type 0
SameParent ts = (h : BlockHash) × BuiltOn h ts

-- A block that was missed is stored to the end.
abbrev pub Settled : Event → Type 0
Settled (missed_block block p) = p ≡ done
Settled _ = Unit

abbrev pub is_done : Progress → Bool
is_done done = true
is_done _ = false

-- The turns on which a missed block was not stored to the end.
abbrev pub unsettled : List Event → ℕ
unsettled [] = 0
unsettled (missed_block block p ∷ events) =
    if is_done p then unsettled events else suc (unsettled events)
unsettled (_ ∷ events) = unsettled events

pub All-last? {ℓ κ} :
    {A : Type ℓ} (P : A → Type κ) (xs : List A) (x : A) → last? xs ≡ some x → All P xs → P x
All-last? P [] x h k = absurd (ground arith)
All-last? P (y ∷ []) x h k = subst P (ground arith) k.0
All-last? P (y ∷ z ∷ xs) x h k = All-last? P (z ∷ xs) x h k.1

All-pop_front {ℓ κ} : {A : Type ℓ} (P : A → Type κ) (xs : List A) → All P xs → All P (pop_front xs)
All-pop_front P [] h = tt
All-pop_front P (x ∷ xs) h = h.1

push_back_bounded-All {κ} :
    (P : GetBlockTemplateResult → Type κ) (ts : List GetBlockTemplateResult)
    (t : GetBlockTemplateResult)
    → All P ts
    → P t
    → All P (push_back_bounded ts t)
push_back_bounded-All P ts t h k =
    let pushed = All-append P ts (t ∷ []) h (k, tt) in
    elim (Bool-cases (ltb max_old_templates (length (ts ++ t ∷ [])))) [
      | inl q ↦ rw q (All-pop_front P (ts ++ t ∷ []) pushed)
      | inr q ↦ rw q pushed
    ]

length-pop_front {ℓ} : {A : Type ℓ} (xs : List A) → length (pop_front xs) ≡ length xs - 1
length-pop_front [] = omega arith
length-pop_front (x ∷ xs) = omega arith

length-push_back_bounded :
    (ts : List GetBlockTemplateResult) (t : GetBlockTemplateResult) (n : ℕ)
    → length ts ≤ max_old_templates + n
    → length (push_back_bounded ts t) ≤ max_old_templates + n
length-push_back_bounded ts t n h =
    ground (arith, length-append ts (t ∷ []), length-pop_front (ts ++ t ∷ []))

module _ (lib : Libraries) where
  open lib use {F32, NaiveDateTime}

  module _ (rpc : Rpc) (db : Answers F32 NaiveDateTime) where
    Step-SameParent :
        {ts ts' : List GetBlockTemplateResult} {event : Event}
        → Step lib rpc db ts ts' event
        → Settled event
        → SameParent ts
        → SameParent ts'
    Step-SameParent (wait ts _) s h = h
    Step-SameParent (first current _) s h = (current.previous_block_hash, (refl, tt))
    Step-SameParent (push ts previous current l e _) s (h, built) = (
      h,
      push_back_bounded-All (λ t. t.previous_block_hash ≡ h) ts current built
          (e ∙ All-last? (λ t. t.previous_block_hash ≡ h) ts previous l built),
    )
    Step-SameParent (compare ts left previous current block fees p l b e r _ _) s h =
        elim (process-templates_after lib db block fees ts left p r) [
          | inl q ↦ subst SameParent (sym q.1) (block.header.prev_blockhash, tt)
          | inr q ↦ subst SameParent (sym q.1) h
        ]
    Step-SameParent (catch ts left previous current block fees p l r _ _ _ _ _) s h =
        elim (process-templates_after lib db block fees ts left p r) [
          | inl q ↦
              subst (λ u. SameParent (u ++ current ∷ [])) (sym q.1)
                (current.previous_block_hash, (refl, tt))
          | inr q ↦ absurd (q.0 s)
        ]

    Step-length :
        {ts ts' : List GetBlockTemplateResult} {event : Event} (events : List Event)
        → Step lib rpc db ts ts' event
        → length ts ≤ max_old_templates + unsettled events
        → length ts' ≤ max_old_templates + unsettled (event ∷ events)
    Step-length events (wait ts _) h = h
    Step-length events (first current _) h = omega arith
    Step-length events (push ts previous current l e _) h =
        length-push_back_bounded ts current (unsettled events) h
    Step-length events (compare ts left previous current block fees p l b e r _ _) h =
        elim (process-templates_after lib db block fees ts left p r) [
          | inl q ↦ rw q.1 (omega arith)
          | inr q ↦ rw q.1 h
        ]
    Step-length events (catch ts left previous current block fees p l r _ _ _ _ _) h =
        elim (process-templates_after lib db block fees ts left p r) [
          | inl q ↦ rw (q.0, q.1) (omega arith)
          | inr q ↦ rw q.1 (grow p q.0)
        ]
      where
        grow :
            (p : Progress)
            → p ≢ done
            → length (ts ++ current ∷ [])
              ≤ max_old_templates + unsettled (missed_block block p ∷ events)
        grow done n = absurd (n refl)
        grow _ n = ground (arith, length-append ts (current ∷ []))

  -- On every run, the queue has at most 15 templates, and one more for each turn on which a missed
  -- block was not stored to the end.
  pub Run-length :
      (ts : List GetBlockTemplateResult) (events : List Event)
      → Run lib ts events
      → length ts ≤ max_old_templates + unsettled events
  Run-length _ _ start = omega arith
  Run-length ts' _ (turn {ts = ts} {events = events} {event = event} rpc db run h) =
      Step-length rpc db events ((main_loop_turn-Step lib rpc db ts ts' event).0 h)
        (Run-length ts events run)

  -- As long as every missed block is stored to the end, all templates in memory build on one block.
  pub Run-SameParent :
      (ts : List GetBlockTemplateResult) (events : List Event)
      → Run lib ts events
      → All Settled events
      → SameParent ts
  Run-SameParent _ _ start s = ([], tt)
  Run-SameParent ts' _ (turn {ts = ts} {events = events} {event = event} rpc db run h) s =
      Step-SameParent rpc db ((main_loop_turn-Step lib rpc db ts ts' event).0 h) s.0
        (Run-SameParent ts events run s.1)
