-- ===== src/Process/Clearing.antt =====
-- When `process` clears the templates, and what it compares.
use mathlib.Core.Path.{subst}
use miningpool_observer.Prelude.{
  ◌≡◌, ◌≢◌, sym, ap, ◌∙◌, Bool, true, false, ◌&&◌, ◌||◌, ◌⊎◌, inl, inr, Option, none, some, List,
  [], map, All, ℤ, Bool-cases, Option-cases, is_empty, list_eq, nat_eq, arith,
}
use miningpool_observer.Bitcoin.{Text, BitcoinBlock, GetBlockTemplateResult, TxFee, Libraries}
use miningpool_observer.Templates.{select_best_template_for_block}
use miningpool_observer.Templates.Best.{select_best_template_for_block-All}
use miningpool_observer.TxSets.{build_block_tx_data}
use miningpool_observer.Tagging.{unwrap_or}
use miningpool_observer.Blocks.{NewBlock}
use miningpool_observer.Sanctions.{UtxoMap, build_outpoint_to_sanctioned_utxo_map}
use miningpool_observer.Process.{
  Rows, Answers, Progress, done, insert_rows, Comparison, compare_block, block_row, build_rows,
  store, connect_and_store, process,
}

-- All inserts are answered without an error.
abbrev pub all_inserted : {F32 Time : Type 0} → Answers F32 Time → Rows Time → Bool
all_inserted db rows =
    db.insert_transactions (map (λ e. e.1) rows.transactions)
    && db.insert_transactions_only_in_block rows.only_in_block
    && db.insert_transactions_only_in_template rows.only_in_template
    && db.insert_sanctioned_transaction_infos rows.sanctioned
    && db.insert_conflicting_transactions rows.conflicting
    && (is_empty rows.new_utxos || db.insert_sanctioned_utxos rows.new_utxos)
    && db.insert_debug_template_selection_infos rows.debug

-- The chain of inserts comes to its end, and clears the templates, exactly if each insert succeeds.
insert_rows-ends :
    {F32 Time : Type 0} (db : Answers F32 Time) (rows : Rows Time)
    (ts : List GetBlockTemplateResult)
    → ((all_inserted db rows ≡ true) × (insert_rows db rows ts ≡ ([], done)))
      ⊎ ((all_inserted db rows ≡ false)
          × ((insert_rows db rows ts).1 ≢ done)
          × ((insert_rows db rows ts).0 ≡ ts))
unfolding insert_rows
insert_rows-ends db rows ts = elim (Bool-cases (all_inserted db rows)) [
  | inl h ↦ inl (h, ground arith)
  | inr h ↦ inr (h, λ d. absurd (ground arith), ground arith)
]

module _ (lib : Libraries) where
  open lib use {F32, NaiveDateTime}

  pub process-parts :
      (db : Answers F32 NaiveDateTime) (block : BitcoinBlock) (fees : List TxFee)
      (ts : List GetBlockTemplateResult) (r : List GetBlockTemplateResult × Progress)
      → process lib db block fees ts ≡ some r
      → (c : Comparison lib) × (compare_block lib block fees ts ≡ some c)
        × (connect_and_store lib db block fees ts c ≡ some r)
  unfolding process
  process-parts db block fees ts r h = elim (Option-cases (compare_block lib block fees ts)) [
    | inl e ↦ absurd (ground arith)
    | inr (c, e) ↦ (c, e, ground arith)
  ]

  -- The template that is compared satisfies what all templates satisfy.
  pub compare_block-All {κ} :
      (P : GetBlockTemplateResult → Type κ) (block : BitcoinBlock) (fees : List TxFee)
      (ts : List GetBlockTemplateResult) (c : Comparison lib)
      → compare_block lib block fees ts ≡ some c
      → All P ts
      → P c.template
  unfolding compare_block
  compare_block-All P block fees ts c h k =
      elim (Option-cases (build_block_tx_data lib block fees)) [
        | inl e ↦ absurd (ground arith)
        | inr (td, e) ↦ elim (Option-cases (select_best_template_for_block ts td.txids)) [
          | inl q ↦ absurd (ground arith)
          | inr (best, q) ↦
              subst P (ground arith) (select_best_template_for_block-All P ts td.txids best q k)
        ]
      ]

  module _ (db : Answers F32 NaiveDateTime) (block : BitcoinBlock) (fees : List TxFee)
      (ts : List GetBlockTemplateResult) (c : Comparison lib) where
    abbrev connected : Bool
    connected = db.get_connection || db.get_connection_again

    abbrev addresses : List Text
    addresses = unwrap_or [] db.sanctioned_addresses

    abbrev utxos : UtxoMap
    utxos = build_outpoint_to_sanctioned_utxo_map (unwrap_or [] db.get_sanctioned_utxos)

    -- There is a connection, and the row of the block is inserted, under the id.
    abbrev BlockInserted : Option ℤ → Type 0
    BlockInserted answer =
        (connected ≡ true)
        × (row : NewBlock F32 NaiveDateTime) × (block_row lib block fees c utxos addresses
              db.identify_pool
            ≡ some row)
        × (db.insert_block row ≡ answer)

    -- The database takes the rows under the block's id, or refuses one of the inserts.
    abbrev RowsInserted : Bool → Type 0
    RowsInserted ok =
        (id : ℤ) × BlockInserted (some id)
        × (rows : Rows NaiveDateTime) × (build_rows lib block ts c db.mempool_ages id utxos
              addresses
            ≡ some rows)
        × (all_inserted db rows ≡ ok)

    -- Everything was stored, and the templates are gone; or there was no connection, or the block or
    -- some rows were refused, and the templates are all there.
    abbrev pub Ends : List GetBlockTemplateResult × Progress → Type 0
    Ends r =
        (RowsInserted true × (r.1 ≡ done) × (r.0 ≡ []))
        ⊎ (((connected ≡ false) ⊎ BlockInserted none ⊎ RowsInserted false)
            × (r.1 ≢ done)
            × (r.0 ≡ ts))

    rows-Ends :
        (id : ℤ) (rows : Rows NaiveDateTime) (r : List GetBlockTemplateResult × Progress)
        → BlockInserted (some id)
        → build_rows lib block ts c db.mempool_ages id utxos addresses ≡ some rows
        → insert_rows db rows ts ≡ r
        → Ends r
    rows-Ends id rows r b e h = elim (insert_rows-ends db rows ts) [
      | inl (i, q) ↦ inl ((id, b, rows, e, i), ground arith, ground arith)
      | inr (i, n, q) ↦ inr (inr (inr (id, b, rows, e, i)), λ d. n (cc), ap (λ u. u.0) (sym h) ∙ q)
    ]

    connect_and_store-Ends :
        (r : List GetBlockTemplateResult × Progress)
        → connect_and_store lib db block fees ts c ≡ some r
        → Ends r
    unfolding connect_and_store store
    connect_and_store-Ends r h = elim (Bool-cases connected) [
      | inr q ↦ inr (inl q, λ d. absurd (ground arith), ground arith)
      | inl q ↦ elim (Option-cases (block_row lib block fees c utxos addresses db.identify_pool)) [
        | inl e ↦ absurd (ground arith)
        | inr (row, e) ↦ elim (Option-cases (db.insert_block row)) [
          | inl k ↦ inr (inr (inl (q, row, e, k)), λ d. absurd (ground arith), ground arith)
          | inr (id, k) ↦
              elim (Option-cases (build_rows lib block ts c db.mempool_ages id utxos addresses)) [
                | inl l ↦ absurd (ground arith)
                | inr (rows, l) ↦ rows-Ends id rows r (q, row, e, k) l (ground arith)
              ]
        ]
      ]
    ]

  -- A run of `process` that does not panic clears the templates exactly if it stored everything:
  -- there was a connection, the row of the block that it compared was inserted, and the database
  -- took all of the rows that it built for the block. Otherwise one of these failed, and all
  -- templates are left, in their order.
  pub process-Ends :
      (db : Answers F32 NaiveDateTime) (block : BitcoinBlock) (fees : List TxFee)
      (ts : List GetBlockTemplateResult) (r : List GetBlockTemplateResult × Progress)
      → process lib db block fees ts ≡ some r
      → (c : Comparison lib) × (compare_block lib block fees ts ≡ some c)
        × Ends db block fees ts c r
  process-Ends db block fees ts r h =
      let (c, e, k) = process-parts db block fees ts r h in
      (c, e, connect_and_store-Ends db block fees ts c r k)

  pub process-templates_after :
      (db : Answers F32 NaiveDateTime) (block : BitcoinBlock) (fees : List TxFee)
      (ts left : List GetBlockTemplateResult) (p : Progress)
      → process lib db block fees ts ≡ some (left, p)
      → ((p ≡ done) × (left ≡ [])) ⊎ ((p ≢ done) × (left ≡ ts))
  process-templates_after db block fees ts left p h =
      let (c, e, ends) = process-Ends db block fees ts (left, p) h in
      elim ends [ inl q ↦ inl (q.1, q.2) | inr q ↦ inr (q.1, q.2) ]
