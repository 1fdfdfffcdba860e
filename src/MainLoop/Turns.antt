-- ===== src/MainLoop/Turns.antt =====
-- `main_loop` of daemon/src/main.rs: its turns against the step relation.
use mathlib.Core.Path.{subst}
use miningpool_observer.Prelude.{
  ◌≡◌, refl, ap, is_empty, sym, inl, inr, Option, none, some, List, [], ◌∷◌, ◌++◌, last?, ◌==◌,
  list_eq, nat_eq, beq→eq, beq_refl, ◌∙◌, ◌↔◌, Bool-cases, Option-cases, arith,
}
use miningpool_observer.Bitcoin.{BitcoinBlock, GetBlockTemplateResult, Libraries}
use miningpool_observer.Process.{Answers, process}
use miningpool_observer.MainLoop.{
  Rpc, Event, rpc_failed, first_template, no_new_block, new_block, missed_block, push_back_bounded,
  catch_up, compare_new_block, tip_changed, main_loop_turn,
}
use miningpool_observer.MainLoop.Steps.{
  Changed, Missed, Lacks, no_template, no_tip, no_fees, no_hash, no_missed, no_missed_fees, Step,
  wait, first, push, compare, catch,
}

last?-none {ℓ} : {A : Type ℓ} (xs : List A) → last? xs ≡ none → xs ≡ []
last?-none [] h = refl
last?-none (x ∷ []) h = absurd (ground arith)
last?-none (x ∷ y ∷ xs) h = absurd (ground (arith, ap is_empty (last?-none (y ∷ xs) h)))

module _ (lib : Libraries) where
  open lib use {F32, NaiveDateTime}

  module _ (rpc : Rpc) (db : Answers F32 NaiveDateTime) where
    -- A result of a turn is a step; a panic is none.
    abbrev pub StepTo :
        List GetBlockTemplateResult → Option (List GetBlockTemplateResult × Event) → Type 0
    StepTo ts none = Unit
    StepTo ts (some (ts', event)) = Step lib rpc db ts ts' event

    becomes :
        (ts : List GetBlockTemplateResult) {o : Option (List GetBlockTemplateResult × Event)}
        (r : Option (List GetBlockTemplateResult × Event))
        → o ≡ r
        → StepTo ts r
        → StepTo ts o
    becomes ts r h = subst (StepTo ts) (sym h)

    module _ (ts : List GetBlockTemplateResult) (previous current : GetBlockTemplateResult)
        (changed : Changed lib rpc db ts previous current) where
      catch_up-StepTo :
          Missed lib rpc db ts previous current
          → StepTo ts (catch_up lib rpc db ts previous current)
      unfolding catch_up
      catch_up-StepTo m = elim (Option-cases (rpc.get_block_hash previous.height)) [
        | inl e ↦ becomes ts (some (ts, rpc_failed)) (ground arith) (wait ts (no_hash m e))
        | inr (missed, e) ↦ elim (Option-cases (rpc.get_block missed)) [
          | inl q ↦ becomes ts (some (ts, rpc_failed)) (ground arith) (wait ts (no_missed m e q))
          | inr (block, q) ↦ elim (Option-cases (rpc.get_block_txid_fee missed)) [
            | inl r ↦
                becomes ts (some (ts, rpc_failed)) (ground arith) (wait ts (no_missed_fees m e q r))
            | inr (fees, r) ↦ elim (Option-cases (process lib db block fees ts)) [
              | inl k ↦ becomes ts none (ground arith) tt
              | inr ((left, p), k) ↦
                  becomes ts (some (left ++ current ∷ [], missed_block block p)) (ground arith)
                    (catch ts left previous current block fees p changed.1 k m missed e q r)
            ]
          ]
        ]
      ]

      compare_new_block-StepTo :
          (block : BitcoinBlock)
          → rpc.get_block current.previous_block_hash ≡ some block
          → block.header.prev_blockhash ≡ previous.previous_block_hash
          → StepTo ts (compare_new_block lib rpc db ts current block)
      unfolding compare_new_block
      compare_new_block-StepTo block b q =
          elim (Option-cases (rpc.get_block_txid_fee current.previous_block_hash)) [
            | inl e ↦
                becomes ts (some (ts, rpc_failed)) (ground arith) (wait ts (no_fees changed b q e))
            | inr (fees, e) ↦ elim (Option-cases (process lib db block fees ts)) [
              | inl k ↦ becomes ts none (ground arith) tt
              | inr ((left, p), k) ↦
                  becomes ts (some (left, new_block block p)) (ground arith)
                    (compare ts left previous current block fees p changed.1 b q k changed e)
            ]
          ]

      tip_changed-StepTo : StepTo ts (tip_changed lib rpc db ts previous current)
      unfolding tip_changed
      tip_changed-StepTo = elim (Option-cases (rpc.get_block current.previous_block_hash)) [
        | inl e ↦ becomes ts (some (ts, rpc_failed)) (ground arith) (wait ts (no_tip changed e))
        | inr (block, e) ↦
            elim (Bool-cases (block.header.prev_blockhash == previous.previous_block_hash)) [
              | inl q ↦
                  becomes ts (compare_new_block lib rpc db ts current block) (ground arith)
                    (compare_new_block-StepTo block e (beq→eq _ _ q))
              | inr q ↦
                  becomes ts (catch_up lib rpc db ts previous current) (ground arith)
                    (catch_up-StepTo (changed, block, e, q))
            ]
      ]

    main_loop_turn-StepTo :
        (ts : List GetBlockTemplateResult) → StepTo ts (main_loop_turn lib rpc db ts)
    unfolding main_loop_turn
    main_loop_turn-StepTo ts = elim (Option-cases rpc.get_block_template) [
      | inl e ↦ becomes ts (some (ts, rpc_failed)) (ground arith) (wait ts (no_template e))
      | inr (current, e) ↦ elim (Option-cases (last? ts)) [
        | inl q ↦ becomes ts (some (current ∷ [], first_template)) (ground arith) (
            subst (λ l. Step lib rpc db l (current ∷ []) first_template) (sym (last?-none ts q))
              (first current e))
        | inr (previous, q) ↦
            elim (Bool-cases (previous.previous_block_hash == current.previous_block_hash)) [
              | inl r ↦
                  becomes ts (some (push_back_bounded ts current, no_new_block)) (ground arith)
                    (push ts previous current q (sym (beq→eq _ _ r)) e)
              | inr r ↦
                  becomes ts (tip_changed lib rpc db ts previous current) (ground arith)
                    (tip_changed-StepTo ts previous current (e, q, r))
            ]
      ]
    ]

    turn-Step :
        (ts ts' : List GetBlockTemplateResult) (event : Event)
        → main_loop_turn lib rpc db ts ≡ some (ts', event)
        → Step lib rpc db ts ts' event
    turn-Step ts ts' event h = subst (StepTo ts) h (main_loop_turn-StepTo ts)

    Changed-turn :
        (ts : List GetBlockTemplateResult) (previous current : GetBlockTemplateResult)
        → Changed lib rpc db ts previous current
        → main_loop_turn lib rpc db ts ≡ tip_changed lib rpc db ts previous current
    unfolding main_loop_turn
    Changed-turn ts previous current (e, l, n) = ground arith

    Missed-turn :
        (ts : List GetBlockTemplateResult) (previous current : GetBlockTemplateResult)
        → Missed lib rpc db ts previous current
        → main_loop_turn lib rpc db ts ≡ catch_up lib rpc db ts previous current
    unfolding tip_changed
    Missed-turn ts previous current (changed, tip, b, n) =
        Changed-turn ts previous current changed ∙ ground arith

    Lacks-turn :
        (ts : List GetBlockTemplateResult)
        → Lacks lib rpc db ts
        → main_loop_turn lib rpc db ts ≡ some (ts, rpc_failed)
    unfolding main_loop_turn tip_changed compare_new_block catch_up
    Lacks-turn ts (no_template e) = rw e refl
    Lacks-turn ts (no_tip {previous = previous} {current} c b) =
        Changed-turn ts previous current c ∙ ground arith
    Lacks-turn ts (no_fees {previous = previous} {current} {block} c b q f) =
        Changed-turn ts previous current c ∙ ground (arith, beq_refl previous.previous_block_hash)
    Lacks-turn ts (no_hash {previous = previous} {current} m e) =
        Missed-turn ts previous current m ∙ ground arith
    Lacks-turn ts (no_missed {previous = previous} {current} m e b) =
        Missed-turn ts previous current m ∙ ground arith
    Lacks-turn ts (no_missed_fees {previous = previous} {current} m e b f) =
        Missed-turn ts previous current m ∙ ground arith

    Step-turn :
        (ts ts' : List GetBlockTemplateResult) (event : Event)
        → Step lib rpc db ts ts' event
        → main_loop_turn lib rpc db ts ≡ some (ts', event)
    unfolding main_loop_turn tip_changed compare_new_block catch_up
    Step-turn _ _ _ (wait ts l) = Lacks-turn ts l
    Step-turn _ _ _ (first current e) = rw e refl
    Step-turn _ _ _ (push ts previous current l same e) =
        ground (arith, beq_refl previous.previous_block_hash)
    Step-turn _ _ _ (compare ts left previous current block fees p l b q r c f) =
        Changed-turn ts previous current c ∙ ground (arith, beq_refl previous.previous_block_hash)
    Step-turn _ _ _ (catch ts left previous current block fees p l r m hash e b f) =
        Missed-turn ts previous current m ∙ ground arith

    -- A turn is exactly a step: it gives a result exactly if the relation allows it, so that the
    -- relation has one step for each answer of the node, and a turn panics only where `process` does
    -- on the block that the relation names.
    pub main_loop_turn-Step :
        (ts ts' : List GetBlockTemplateResult) (event : Event)
        → (main_loop_turn lib rpc db ts ≡ some (ts', event)) ↔ Step lib rpc db ts ts' event
    main_loop_turn-Step ts ts' event = (turn-Step ts ts' event, Step-turn ts ts' event)
