-- ===== src/MainLoop.antt =====
-- `main_loop` of daemon/src/main.rs: one turn of the loop, and the runs of the loop.
use miningpool_observer.Prelude.{
  ℕ, Option, none, some, List, [], ◌∷◌, ◌++◌, length, ltb, last?, if◌then◌else◌, ◌==◌, list_eq,
  nat_eq, ◌≡◌, ◌>>=◌,
}
use miningpool_observer.Bitcoin.{BlockHash, BitcoinBlock, GetBlockTemplateResult, TxFee, Libraries}
use miningpool_observer.Process.{Answers, Progress, process}
pub mod Steps
pub mod Turns
pub mod Reachable
pub mod Compared

abbrev pub max_old_templates : ℕ
max_old_templates = 15

-- The answers of the node during one turn; `none` stands for an error.
pub record Rpc : Type 0 where
  pub get_block_template : Option GetBlockTemplateResult
  pub get_block : BlockHash → Option BitcoinBlock
  pub get_block_hash : ℕ → Option BlockHash
  pub get_block_txid_fee : BlockHash → Option (List TxFee)

-- Which way a turn went.
pub data Event : Type 0 where
  rpc_failed first_template no_new_block : Event
  new_block : BitcoinBlock → Progress → Event
  missed_block : BitcoinBlock → Progress → Event

-- `VecDeque::pop_front`.
abbrev pub pop_front {ℓ} : {A : Type ℓ} → List A → List A
pop_front [] = []
pop_front (x ∷ xs) = xs

abbrev pub push_back_bounded :
    List GetBlockTemplateResult → GetBlockTemplateResult → List GetBlockTemplateResult
push_back_bounded ts t =
    let pushed = ts ++ t ∷ [] in
    if ltb max_old_templates (length pushed) then pop_front pushed else pushed

module _ (lib : Libraries) where
  open lib use {F32, NaiveDateTime}

  -- The tip is not a child of what the templates build on: the block of the previous template's
  -- height is compared.
  unfoldable pub catch_up :
      Rpc
      → Answers F32 NaiveDateTime
      → List GetBlockTemplateResult
      → GetBlockTemplateResult
      → GetBlockTemplateResult
      → Option (List GetBlockTemplateResult × Event)
  unfolding process
  catch_up rpc db last_templates previous current = elim (rpc.get_block_hash previous.height) [
    | none ↦ some (last_templates, rpc_failed)
    | some missed ↦ elim (rpc.get_block missed) [
      | none ↦ some (last_templates, rpc_failed)
      | some block ↦ elim (rpc.get_block_txid_fee missed) [
        | none ↦ some (last_templates, rpc_failed)
        | some fees ↦ process lib db block fees last_templates >>= λ left.
            some (left.0 ++ current ∷ [], missed_block block left.1)
      ]
    ]
  ]

  -- The block is a child of what the previous template builds on. The current template is dropped:
  -- the next turn asks for another.
  unfoldable pub compare_new_block :
      Rpc
      → Answers F32 NaiveDateTime
      → List GetBlockTemplateResult
      → GetBlockTemplateResult
      → BitcoinBlock
      → Option (List GetBlockTemplateResult × Event)
  unfolding process
  compare_new_block rpc db last_templates current block =
      elim (rpc.get_block_txid_fee current.previous_block_hash) [
        | none ↦ some (last_templates, rpc_failed)
        | some fees ↦ process lib db block fees last_templates >>= λ left.
            some (left.0, new_block block left.1)
      ]

  -- The tip changed.
  unfoldable pub tip_changed :
      Rpc
      → Answers F32 NaiveDateTime
      → List GetBlockTemplateResult
      → GetBlockTemplateResult
      → GetBlockTemplateResult
      → Option (List GetBlockTemplateResult × Event)
  unfolding catch_up compare_new_block
  tip_changed rpc db last_templates previous current =
      elim (rpc.get_block current.previous_block_hash) [
        | none ↦ some (last_templates, rpc_failed)
        | some block ↦
            if block.header.prev_blockhash == previous.previous_block_hash
            then compare_new_block rpc db last_templates current block
            else catch_up rpc db last_templates previous current
      ]

  -- One turn of the loop: the templates that it leaves. `none` stands for a panic.
  unfoldable pub main_loop_turn :
      Rpc
      → Answers F32 NaiveDateTime
      → List GetBlockTemplateResult
      → Option (List GetBlockTemplateResult × Event)
  unfolding tip_changed
  main_loop_turn rpc db last_templates = elim rpc.get_block_template [
    | none ↦ some (last_templates, rpc_failed)
    | some current ↦ elim (last? last_templates) [
      | none ↦ some (current ∷ [], first_template)
      | some previous ↦
          if previous.previous_block_hash == current.previous_block_hash
          then some (push_back_bounded last_templates current, no_new_block)
          else tip_changed rpc db last_templates previous current
    ]
  ]

  -- The runs of the loop from the start, with the events of their turns, the last one first.
  pub data Run : List GetBlockTemplateResult → List Event → Type 0 where
    start : Run [] []
    turn :
        {ts ts' : List GetBlockTemplateResult} {events : List Event} {event : Event} (rpc : Rpc)
        (db : Answers F32 NaiveDateTime)
        → Run ts events
        → main_loop_turn rpc db ts ≡ some (ts', event)
        → Run ts' (event ∷ events)
