-- ===== src/Process/Foreign.antt =====
-- The rows of one run of `process` together: the txids that they refer to, which the tables declare
-- as foreign keys.
use miningpool_observer.Prelude.{
  ◌≡◌, refl, ℕ, true, false, some, List, [], ◌∷◌, ◌++◌, Option, map, Bool, reverse, All, All-mono,
  All-append, All-split, map-All, contains, is_some, ℤ, list_eq, nat_eq, Option-cases, inl, inr,
  arith,
}
use miningpool_observer.Bitcoin.{
  Bytes, Text, Txid, BitcoinBlock, GetBlockTemplateResult, TxFee, Libraries,
}
use miningpool_observer.Model.{
  TxInfo, TransactionOnlyInBlock, TransactionOnlyInTemplate, SanctionedTransactionInfo,
  ConflictingTransaction,
}
use miningpool_observer.Sanctions.{UtxoMap, build_newly_created_sanctioned_utxos}
use miningpool_observer.TxSets.Index.{Indexed, HasItsTxid}
use miningpool_observer.Templates.{DebugTemplateSelectionInfo, build_debug_template_selection_infos}
use miningpool_observer.Transactions.{
  Transactions, build_transactions_only_in_block, build_transactions_only_in_template,
  build_sanctioned_transaction_infos,
}
use miningpool_observer.Transactions.References.{
  Has, Keeps, IsBuildable, block_row, build_transactions_only_in_block-Has,
}
use miningpool_observer.Transactions.InTemplate.{
  template_rows, build_transactions_only_in_template-Has,
}
use miningpool_observer.Transactions.Sanctioned.{
  sanctioned_row, build_sanctioned_transaction_infos-Has,
}
use miningpool_observer.Transactions.Keyed.{
  Keyed, no-Keyed, add_to_transactions-Keyed, contains-txids, only_in_block-Preserves,
  only_in_template-Preserves, sanctioned-Preserves,
}
use miningpool_observer.Conflicts.{build_conflicting_transactions}
use miningpool_observer.Conflicts.Reports.{ConflictRefers, build_conflicting_transactions-Has}
use miningpool_observer.Conflicts.Added.{build_conflicting-Preserves}
use miningpool_observer.Process.{
  Rows, Comparison, compare_block, only_in_block, only_in_template, build_rows,
}
use miningpool_observer.Process.Compared.{compare_block-Indexed, Infos, All-Found, others-Found}

-- One of the inserted transactions has this txid.
abbrev pub IsInserted : Transactions → Bytes → Type 0
IsInserted m k = contains k (map (λ e. e.1.txid) m) ≡ true

-- Every txid that the rows refer to is the txid of an inserted transaction.
abbrev pub Refers : {Time : Type 0} → Rows Time → Type 0
Refers rows =
    All (λ r. IsInserted rows.transactions r.transaction_txid) rows.only_in_block
    × All (λ r. IsInserted rows.transactions r.transaction_txid) rows.only_in_template
    × All (λ r. IsInserted rows.transactions r.transaction_txid) rows.sanctioned
    × All
        (λ r.
          All (IsInserted rows.transactions) r.template_txids
          × All (IsInserted rows.transactions) r.block_txids)
        rows.conflicting

module _ (lib : Libraries) (utxos : UtxoMap) (addresses : List Text) (block_id : ℤ) where
  open lib use {NaiveDateTime, from_timestamp}

  abbrev Buildable : TxInfo → Type 0
  Buildable = IsBuildable lib utxos addresses

  template_rows-All {κ} :
      (P : Bytes → Type κ) (ages : List (Txid × ℤ)) (txids : List Txid) (found : List TxInfo)
      → All (λ i. P (reverse i.txid)) found
      → All
          (λ r. P r.transaction_txid)
          (template_rows lib utxos addresses block_id ages txids found)
  template_rows-All P ages [] found h = tt
  template_rows-All P ages (txid ∷ txids) [] h = tt
  template_rows-All P ages (txid ∷ txids) (i ∷ is) h = (h.0, template_rows-All P ages txids is h.1)

  becomes :
      (infos : List TxInfo) (m m' : Transactions)
      → Keeps m m'
      → ((k : Bytes) → Has m' k → IsInserted m' k)
      → All (λ i. Has m (reverse i.txid)) infos
      → All (λ i. IsInserted m' (reverse i.txid)) infos
  becomes infos m m' keeps inserted =
      All-mono (λ (i : TxInfo). Has m (reverse i.txid)) (λ i. IsInserted m' (reverse i.txid)) infos
        (λ i h. inserted (reverse i.txid) (keeps (reverse i.txid) h))

  sanctioned-IsInserted :
      (m : Transactions)
      → ((k : Bytes) → Has m k → IsInserted m k)
      → (f g : Txid → Bool) (is js : List TxInfo) → All (λ i. Has m (reverse i.txid)) (is ++ js)
      → All
          (λ r. IsInserted m r.transaction_txid)
          (map (sanctioned_row lib utxos addresses block_id f true) is
            ++ map (sanctioned_row lib utxos addresses block_id g false) js)
  sanctioned-IsInserted m inserted f g is js h =
      let (hi, hj) = All-split (λ (i : TxInfo). Has m (reverse i.txid)) is js h in
      All-append (λ (r : SanctionedTransactionInfo). IsInserted m r.transaction_txid) _ _
        (map-All (λ r. IsInserted m r.transaction_txid)
          (sanctioned_row lib utxos addresses block_id f true) is
          (becomes is m m (λ k h. h) inserted hi))
        (map-All (λ r. IsInserted m r.transaction_txid)
          (sanctioned_row lib utxos addresses block_id g false) js
          (becomes js m m (λ k h. h) inserted hj))

  conflicting-IsInserted :
      (m m' : Transactions) (rows : List ConflictingTransaction)
      → ((k : Bytes) → Has m k → IsInserted m' k)
      → All (ConflictRefers m) rows
      → All (λ r. All (IsInserted m') r.template_txids × All (IsInserted m') r.block_txids) rows
  conflicting-IsInserted m m' rows inserted =
      All-mono (ConflictRefers m)
        (λ r. All (IsInserted m') r.template_txids × All (IsInserted m') r.block_txids) rows
        (λ r h. (
          All-mono (Has m) (IsInserted m') r.template_txids inserted h.0,
          All-mono (Has m) (IsInserted m') r.block_txids inserted h.1,
        ))

  debug_infos-total :
      (ts : List GetBlockTemplateResult) (block_txids : List Txid) (time : ℕ)
      → All (λ t. is_some (from_timestamp t.current_time) ≡ true) ts
      → is_some (build_debug_template_selection_infos lib block_id ts block_txids time) ≡ true
  unfolding build_debug_template_selection_infos
  debug_infos-total [] block_txids time h = refl
  debug_infos-total (t ∷ ts) block_txids time h =
      elim (Option-cases (from_timestamp t.current_time)) [
        | inl e ↦ absurd (ground arith)
        | inr (n, e) ↦ ground (arith, debug_infos-total ts block_txids time h.1)
      ]

  module _ (block : BitcoinBlock) (ts : List GetBlockTemplateResult) (c : Comparison lib)
      (ages : List Txid → List (Txid × ℤ)) where
    abbrev rows_of : Option (Rows NaiveDateTime)
    rows_of = build_rows lib block ts c ages block_id utxos addresses

    -- The rows, from the results of the loops and the maps between them.
    module _ (conflicting : List ConflictingTransaction)
        (template_only : List TransactionOnlyInTemplate) (block_only : List TransactionOnlyInBlock)
        (sanctioned : List SanctionedTransactionInfo)
        (debug : List (DebugTemplateSelectionInfo NaiveDateTime)) (m₁ m₂ m₃ m₄ : Transactions)
        (r₁ : build_conflicting_transactions lib utxos addresses block_id
            (only_in_template lib c)
            c.template_data.txid_to_txinfo_map
            (only_in_block lib c)
            c.block_data.txid_to_txinfo_map
            []
          ≡ some (conflicting, m₁))
        (r₂ : build_transactions_only_in_template lib utxos addresses block_id
            (only_in_template lib c)
            c.template_data.txid_to_txinfo_map
            (ages (only_in_template lib c))
            m₁
          ≡ some (template_only, m₂))
        (r₃ : build_transactions_only_in_block lib utxos addresses block_id
            (only_in_block lib c)
            c.block_data.txid_to_txinfo_map
            m₂
          ≡ some (block_only, m₃))
        (r₄ : build_sanctioned_transaction_infos lib utxos addresses block_id c.block_data
            c.template_data.txids c.template_data.txid_to_txinfo_map
            (only_in_block lib c)
            m₃
          ≡ some (sanctioned, m₄)) where
      abbrev together : Rows NaiveDateTime
      together = record {
        transactions = m₄;
        only_in_block = block_only;
        only_in_template = template_only;
        sanctioned = sanctioned;
        conflicting = conflicting;
        new_utxos = build_newly_created_sanctioned_utxos lib block addresses;
        debug = debug;
      }

      build_rows-together :
          build_debug_template_selection_infos lib block_id ts c.block_data.txids
              c.template.current_time
            ≡ some debug
          → rows_of ≡ some together
      unfolding build_rows
      build_rows-together e = ground arith

      together-Keyed : Keyed m₄
      together-Keyed =
          let step = add_to_transactions-Keyed in
          sanctioned-Preserves lib utxos addresses Keyed step block_id c.block_data
            c.template_data.txids (only_in_block lib c) c.template_data.txid_to_txinfo_map m₃ m₄
            sanctioned r₄
            (only_in_block-Preserves lib utxos addresses Keyed step block_id (only_in_block lib c)
              c.block_data.txid_to_txinfo_map m₂ m₃ block_only r₃
              (only_in_template-Preserves lib utxos addresses Keyed step block_id
                (only_in_template lib c) c.template_data.txid_to_txinfo_map
                (ages (only_in_template lib c)) m₁ m₂ template_only r₂
                (build_conflicting-Preserves lib utxos addresses Keyed step block_id
                  (only_in_template lib c) c.template_data.txid_to_txinfo_map (only_in_block lib c)
                  c.block_data.txid_to_txinfo_map [] m₁ conflicting r₁ no-Keyed)))

      together-IsInserted : (k : Bytes) → Has m₄ k → IsInserted m₄ k
      together-IsInserted k = contains-txids k m₄ together-Keyed

    -- What all of the loops lead to.
    Indexed-Refers :
        Indexed c.block_data
        → Indexed c.template_data
        → Infos Buildable c.block_data
        → Infos Buildable c.template_data
        → All (λ t. is_some (from_timestamp t.current_time) ≡ true) ts
        → (rows : Rows NaiveDateTime) × (rows_of ≡ some rows) × Refers rows
    Indexed-Refers ib it kb kt times =
        let block_map = c.block_data.txid_to_txinfo_map in
        let template_map = c.template_data.txid_to_txinfo_map in
        let (in_template, ft, bt) =
          others-Found Buildable c.template_data c.block_data.txids it kt in
        let (in_block, fb, bb) = others-Found Buildable c.block_data c.template_data.txids ib kb in
        let (all_template, fa, _) = All-Found Buildable c.template_data it kt in
        let (conflicting, m₁, r₁, refers, _) =
          build_conflicting_transactions-Has lib utxos addresses block_id (only_in_template lib c)
            template_map (only_in_block lib c) block_map [] in_template in_block ft fb bt bb in
        let (m₂, r₂, has₂, keeps₂) =
          build_transactions_only_in_template-Has lib utxos addresses block_id
            (ages (only_in_template lib c)) (only_in_template lib c) template_map m₁ in_template ft
            bt in
        let (m₃, r₃, has₃, keeps₃) =
          build_transactions_only_in_block-Has lib utxos addresses block_id (only_in_block lib c)
            block_map m₂ in_block fb bb in
        let (m₄, r₄, has₄, keeps₄) =
          build_sanctioned_transaction_infos-Has lib utxos addresses block_id c.block_data
            c.template_data.txids (only_in_block lib c) template_map m₃ all_template in_block fa
            fb in
        let inserted = together-IsInserted conflicting _ _ _ [] m₁ m₂ m₃ m₄ r₁ r₂ r₃ r₄ in
        elim (Option-cases (
          build_debug_template_selection_infos lib block_id ts c.block_data.txids
            c.template.current_time)) [
              | inl e ↦ absurd (
                  ground
                    (arith, debug_infos-total ts c.block_data.txids c.template.current_time times))
              | inr (debug, e) ↦ (
                together conflicting _ _ _ debug m₁ m₂ m₃ m₄ r₁ r₂ r₃ r₄,
                build_rows-together conflicting _ _ _ debug m₁ m₂ m₃ m₄ r₁ r₂ r₃ r₄ e,
                (
                  map-All (λ r. IsInserted m₄ r.transaction_txid)
                      (block_row lib utxos addresses block_id) in_block
                      (becomes in_block m₃ m₄ keeps₄ inserted has₃),
                  template_rows-All (IsInserted m₄) (ages (only_in_template lib c))
                      (only_in_template lib c) in_template
                      (becomes in_template m₂ m₄ (λ k h. keeps₄ k (keeps₃ k h)) inserted has₂),
                  sanctioned-IsInserted m₄ inserted _ _ _ _ has₄,
                  conflicting-IsInserted m₁ m₄ conflicting
                      (λ k h. inserted k (keeps₄ k (keeps₃ k (keeps₂ k h)))) refers,
                ),
              )
            ]

  -- If the node gives the template's transactions their own txids, the transactions of the block
  -- and of the selected template can be built, and the templates' times are in the calendar, then
  -- the rows are built without a panic, and every txid that the rows of the transactions only in
  -- the block, only in the template, sanctioned and conflicting refer to is the txid of one of the
  -- transactions that are inserted before them.
  pub build_rows-Refers :
      (block : BitcoinBlock) (fees : List TxFee) (ts : List GetBlockTemplateResult)
      (c : Comparison lib) (ages : List Txid → List (Txid × ℤ))
      → compare_block lib block fees ts ≡ some c
      → All (HasItsTxid lib) c.template.transactions
      → Infos Buildable c.block_data
      → Infos Buildable c.template_data
      → All (λ t. is_some (from_timestamp t.current_time) ≡ true) ts
      → (rows : Rows NaiveDateTime) × (build_rows lib block ts c ages block_id utxos addresses
          ≡ some rows)
        × Refers rows
  build_rows-Refers block fees ts c ages h own kb kt times =
      let (ib, it) = compare_block-Indexed lib block fees ts c h own in
      Indexed-Refers block ts c ages ib it kb kt times
