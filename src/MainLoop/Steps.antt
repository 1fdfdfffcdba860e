-- ===== src/MainLoop/Steps.antt =====
-- The turns of the main loop as a step relation on the templates.
use miningpool_observer.Prelude.{
  ◌≡◌, none, some, List, [], ◌∷◌, ◌++◌, last?, ◌==◌, list_eq, nat_eq, false,
}
use miningpool_observer.Bitcoin.{BlockHash, BitcoinBlock, GetBlockTemplateResult, TxFee, Libraries}
use miningpool_observer.Process.{Answers, Progress, process}
use miningpool_observer.MainLoop.{
  Rpc, Event, rpc_failed, first_template, no_new_block, new_block, missed_block, push_back_bounded,
}

module _ (lib : Libraries) where
  open lib use {F32, NaiveDateTime}

  module _ (rpc : Rpc) (db : Answers F32 NaiveDateTime) where
    -- The node gives a template that is on another block than the last one, and this block.
    abbrev pub Changed :
        List GetBlockTemplateResult → GetBlockTemplateResult → GetBlockTemplateResult → Type 0
    Changed ts previous current =
        (rpc.get_block_template ≡ some current)
        × (last? ts ≡ some previous)
        × ((previous.previous_block_hash == current.previous_block_hash) ≡ false)

    -- This block is not on the parent of the last template: blocks were missed.
    abbrev pub Missed :
        List GetBlockTemplateResult → GetBlockTemplateResult → GetBlockTemplateResult → Type 0
    Missed ts previous current =
        Changed ts previous current
        × (tip : BitcoinBlock) × (rpc.get_block current.previous_block_hash ≡ some tip)
        × ((tip.header.prev_blockhash == previous.previous_block_hash) ≡ false)

    -- An answer that the turn needs is missing.
    pub data Lacks : List GetBlockTemplateResult → Type 0 where
      no_template : {ts : List GetBlockTemplateResult} → rpc.get_block_template ≡ none → Lacks ts
      no_tip :
          {ts : List GetBlockTemplateResult} {previous current : GetBlockTemplateResult}
          → Changed ts previous current
          → rpc.get_block current.previous_block_hash ≡ none
          → Lacks ts
      no_fees :
          {ts : List GetBlockTemplateResult} {previous current : GetBlockTemplateResult}
          {block : BitcoinBlock}
          → Changed ts previous current
          → rpc.get_block current.previous_block_hash ≡ some block
          → block.header.prev_blockhash ≡ previous.previous_block_hash
          → rpc.get_block_txid_fee current.previous_block_hash ≡ none
          → Lacks ts
      no_hash :
          {ts : List GetBlockTemplateResult} {previous current : GetBlockTemplateResult}
          → Missed ts previous current
          → rpc.get_block_hash previous.height ≡ none
          → Lacks ts
      no_missed :
          {ts : List GetBlockTemplateResult} {previous current : GetBlockTemplateResult}
          {hash : BlockHash}
          → Missed ts previous current
          → rpc.get_block_hash previous.height ≡ some hash
          → rpc.get_block hash ≡ none
          → Lacks ts
      no_missed_fees :
          {ts : List GetBlockTemplateResult} {previous current : GetBlockTemplateResult}
          {hash : BlockHash} {block : BitcoinBlock}
          → Missed ts previous current
          → rpc.get_block_hash previous.height ≡ some hash
          → rpc.get_block hash ≡ some block
          → rpc.get_block_txid_fee hash ≡ none
          → Lacks ts

    -- What a turn does to the templates, and the event that it reports.
    pub data Step : List GetBlockTemplateResult → List GetBlockTemplateResult → Event → Type 0 where
      -- An answer of the node is missing.
      wait : (ts : List GetBlockTemplateResult) → Lacks ts → Step ts ts rpc_failed
      -- There was no template.
      first :
          (current : GetBlockTemplateResult)
          → rpc.get_block_template ≡ some current
          → Step [] (current ∷ []) first_template
      -- The template has the parent of the last one.
      push :
          (ts : List GetBlockTemplateResult) (previous current : GetBlockTemplateResult)
          → last? ts ≡ some previous
          → current.previous_block_hash ≡ previous.previous_block_hash
          → rpc.get_block_template ≡ some current
          → Step ts (push_back_bounded ts current) no_new_block
      -- The tip is a block on the parent of the last template: it is compared.
      compare :
          (ts left : List GetBlockTemplateResult) (previous current : GetBlockTemplateResult)
          (block : BitcoinBlock) (fees : List TxFee) (p : Progress)
          → last? ts ≡ some previous
          → rpc.get_block current.previous_block_hash ≡ some block
          → block.header.prev_blockhash ≡ previous.previous_block_hash
          → process lib db block fees ts ≡ some (left, p)
          → Changed ts previous current
          → rpc.get_block_txid_fee current.previous_block_hash ≡ some fees
          → Step ts left (new_block block p)
      -- Blocks were missed: the one of the last template's height is compared.
      catch :
          (ts left : List GetBlockTemplateResult) (previous current : GetBlockTemplateResult)
          (block : BitcoinBlock) (fees : List TxFee) (p : Progress)
          → last? ts ≡ some previous
          → process lib db block fees ts ≡ some (left, p)
          → Missed ts previous current
          → (hash : BlockHash) → rpc.get_block_hash previous.height ≡ some hash
          → rpc.get_block hash ≡ some block
          → rpc.get_block_txid_fee hash ≡ some fees
          → Step ts (left ++ current ∷ []) (missed_block block p)
