-- ===== src/MainLoop/Compared.antt =====
-- The turns of the main loop on which a new block is compared, and the turn after.
use mathlib.Core.Path.{subst}
use miningpool_observer.Prelude.{
  ◌≡◌, ◌≢◌, refl, sym, ◌∙◌, ◌⊎◌, inl, inr, some, List, [], ◌∷◌, All, list_eq, nat_eq, arith,
}
use miningpool_observer.Bitcoin.{BitcoinBlock, GetBlockTemplateResult, TxFee, Libraries}
use miningpool_observer.Process.{Answers, Progress, done, Comparison, compare_block}
use miningpool_observer.Process.Clearing.{process-templates_after, process-parts, compare_block-All}
use miningpool_observer.MainLoop.{Rpc, Event, first_template, new_block, main_loop_turn, Run}
use miningpool_observer.MainLoop.Turns.{main_loop_turn-Step}
use miningpool_observer.MainLoop.Steps.{Step, wait, first, push, compare, catch}
use miningpool_observer.MainLoop.Reachable.{SameParent, Settled, All-last?, Run-SameParent}

module _ (lib : Libraries) where
  open lib use {F32, NaiveDateTime}

  -- The block was compared with a template that builds on the block's parent, and the templates
  -- are cleared exactly if all was stored.
  abbrev pub Compared :
      List GetBlockTemplateResult → List GetBlockTemplateResult → BitcoinBlock → Progress → Type 0
  Compared ts ts' block p =
      ((fees : List TxFee) × (c : Comparison lib) × (compare_block lib block fees ts ≡ some c)
        × (c.template.previous_block_hash ≡ block.header.prev_blockhash))
      × (((p ≡ done) × (ts' ≡ [])) ⊎ ((p ≢ done) × (ts' ≡ ts)))

  module _ (rpc : Rpc) (db : Answers F32 NaiveDateTime) where
    -- `Compared`, where the event is a new block.
    abbrev ComparedAt : List GetBlockTemplateResult → List GetBlockTemplateResult → Event → Type 0
    ComparedAt ts ts' (new_block block p) = Compared ts ts' block p
    ComparedAt ts ts' _ = Unit

    Step-ComparedAt :
        {ts ts' : List GetBlockTemplateResult} {event : Event}
        → Step lib rpc db ts ts' event
        → SameParent ts
        → ComparedAt ts ts' event
    Step-ComparedAt (compare ts left previous current block fees p l b e r _ _) (h, built) =
        let parent : block.header.prev_blockhash ≡ h =
          e ∙ All-last? (λ t. t.previous_block_hash ≡ h) ts previous l built in
        let (c, q, k) = process-parts lib db block fees ts (left, p) r in
        (
          (
            fees,
            c,
            q,
            compare_block-All lib (λ t. t.previous_block_hash ≡ h) block fees ts c q built
                ∙ sym parent,
          ),
          process-templates_after lib db block fees ts left p r,
        )
    Step-ComparedAt (wait ts _) h = tt
    Step-ComparedAt (first current _) h = tt
    Step-ComparedAt (push ts previous current l e _) h = tt
    Step-ComparedAt (catch ts left previous current block fees p l r _ _ _ _ _) h = tt

  -- On every run on which each missed block was stored to the end: a new block is compared with a
  -- template that builds on the block's parent, and the templates are cleared if all was stored,
  -- and kept as they are if not.
  pub new_block-Compared :
      (ts ts' : List GetBlockTemplateResult) (events : List Event) (rpc : Rpc)
      (db : Answers F32 NaiveDateTime) (block : BitcoinBlock) (p : Progress)
      → Run lib ts events
      → All Settled events
      → main_loop_turn lib rpc db ts ≡ some (ts', new_block block p)
      → Compared ts ts' block p
  new_block-Compared ts ts' events rpc db block p run s h =
      Step-ComparedAt rpc db ((main_loop_turn-Step lib rpc db ts ts' (new_block block p)).0 h)
        (Run-SameParent lib ts events run s)

  abbrev ClearedAt : List GetBlockTemplateResult → Event → Type 0
  ClearedAt ts' (new_block block p) = p ≡ done → ts' ≡ []
  ClearedAt ts' _ = Unit

  Step-ClearedAt :
      {rpc : Rpc} {db : Answers F32 NaiveDateTime} {ts ts' : List GetBlockTemplateResult}
      {event : Event}
      → Step lib rpc db ts ts' event
      → ClearedAt ts' event
  Step-ClearedAt {db = db} (compare ts left previous current block fees p l b e r _ _) =
      elim (process-templates_after lib db block fees ts left p r) [
        | inl q ↦ λ d. q.1
        | inr q ↦ λ d. absurd (q.0 d)
      ]
  Step-ClearedAt (wait ts _) = tt
  Step-ClearedAt (first current _) = tt
  Step-ClearedAt (push ts previous current l e _) = tt
  Step-ClearedAt (catch ts left previous current block fees p l r _ _ _ _ _) = tt

  turn-of_nothing :
      (rpc : Rpc) (db : Answers F32 NaiveDateTime) (t : GetBlockTemplateResult)
      → rpc.get_block_template ≡ some t
      → main_loop_turn lib rpc db [] ≡ some (t ∷ [], first_template)
  unfolding main_loop_turn
  turn-of_nothing rpc db t h = ground arith

  -- After a turn that stored a new block to the end, the next turn on which the node gives a
  -- template starts afresh with this one template.
  pub main_loop_turn-after_done :
      (ts ts' : List GetBlockTemplateResult) (rpc rpc' : Rpc) (db db' : Answers F32 NaiveDateTime)
      (block : BitcoinBlock) (t : GetBlockTemplateResult)
      → main_loop_turn lib rpc db ts ≡ some (ts', new_block block done)
      → rpc'.get_block_template ≡ some t
      → main_loop_turn lib rpc' db' ts' ≡ some (t ∷ [], first_template)
  main_loop_turn-after_done ts ts' rpc rpc' db db' block t h g =
      let nothing : ts' ≡ [] =
        Step-ClearedAt ((main_loop_turn-Step lib rpc db ts ts' (new_block block done)).0 h) refl in
      subst (λ u. main_loop_turn lib rpc' db' u ≡ some (t ∷ [], first_template)) (sym nothing)
        (turn-of_nothing rpc' db' t g)
