-- ===== src/Process/Compared.antt =====
-- What `compare_block` gives: the data of the block, and that of the template it selects.
use mathlib.Core.Path.{subst}
use miningpool_observer.Prelude.{
  ◌≡◌, sym, some, List, [], ◌∷◌, All, difference, lookup, Option-cases, inl, inr, arith, list_eq,
  nat_eq,
}
use miningpool_observer.Bitcoin.{Txid, BitcoinBlock, GetBlockTemplateResult, TxFee, Libraries}
use miningpool_observer.Model.{TxInfo, TxData}
use miningpool_observer.Packages.{build_packages}
use miningpool_observer.TxSets.{build_block_tx_data, build_template_tx_data}
use miningpool_observer.TxSets.Index.{
  Indexed, HasItsTxid, difference-Found, Found-of, build_block_tx_data-Agrees,
  build_template_tx_data-Agrees,
}
use miningpool_observer.Templates.{select_best_template_for_block}
use miningpool_observer.Transactions.References.{Found}
use miningpool_observer.Process.{Comparison, compare_block}

module _ (lib : Libraries) where
  compare_block-parts :
      (block : BitcoinBlock) (fees : List TxFee) (ts : List GetBlockTemplateResult)
      (c : Comparison lib)
      → compare_block lib block fees ts ≡ some c
      → (build_block_tx_data lib block fees ≡ some c.block_data)
        × (c.template_data ≡ build_template_tx_data lib c.template)
  unfolding compare_block
  compare_block-parts block fees ts c h = elim (Option-cases (build_block_tx_data lib block fees)) [
    | inl e ↦ absurd (ground arith)
    | inr (td, e) ↦ elim (Option-cases (select_best_template_for_block ts td.txids)) [
      | inl q ↦ absurd (ground arith)
      | inr (best, q) ↦
          elim (Option-cases (build_packages lib (build_template_tx_data lib best).txinfos)) [
            | inl p ↦ absurd (ground arith)
            | inr (tp, p) ↦ elim (Option-cases (build_packages lib td.txinfos)) [
              | inl r ↦ absurd (ground arith)
              | inr (bp, r) ↦ (ground arith, ground arith)
            ]
          ]
    ]
  ]

  -- Both data lead from each of their txids to an info with this txid, if the node gives the
  -- template's transactions their own txids.
  pub compare_block-Indexed :
      (block : BitcoinBlock) (fees : List TxFee) (ts : List GetBlockTemplateResult)
      (c : Comparison lib)
      → compare_block lib block fees ts ≡ some c
      → All (HasItsTxid lib) c.template.transactions
      → Indexed c.block_data × Indexed c.template_data
  compare_block-Indexed block fees ts c h own =
      let (b, t) = compare_block-parts block fees ts c h in
      (
        (build_block_tx_data-Agrees lib block fees c.block_data b).0,
        subst Indexed (sym t) (build_template_tx_data-Agrees lib c.template own).0,
      )

-- Every info that the map leads to meets `P`.
abbrev pub Infos {κ} : (TxInfo → Type κ) → TxData → Type κ
Infos P td = (txid : Txid) (info : TxInfo) → lookup txid td.txid_to_txinfo_map ≡ some info → P info

Found-All {κ} :
    (P : TxInfo → Type κ) (td : TxData) (txids : List Txid) (found : List TxInfo)
    → Infos P td
    → Found txids td.txid_to_txinfo_map found
    → All P found
Found-All P td [] [] h f = tt
Found-All P td [] (i ∷ is) h f = absurd f
Found-All P td (txid ∷ txids) [] h f = absurd f
Found-All P td (txid ∷ txids) (i ∷ is) h f = (h txid i f.0, Found-All P td txids is h f.1)

-- The loops over all txids find their infos.
pub All-Found {κ} :
    (P : TxInfo → Type κ) (td : TxData)
    → Indexed td
    → Infos P td
    → (found : List TxInfo) × Found td.txids td.txid_to_txinfo_map found × All P found
All-Found P td h k =
    let (found, f, _) = Found-of td.txids td.txid_to_txinfo_map h in
    (found, f, Found-All P td td.txids found k f)

-- So do the loops over those that another set does not have.
pub others-Found {κ} :
    (P : TxInfo → Type κ) (td : TxData) (others : List Txid)
    → Indexed td
    → Infos P td
    → (found : List TxInfo) × Found (difference td.txids others) td.txid_to_txinfo_map found
      × All P found
others-Found P td others h k =
    let (found, f, _) = difference-Found td others h in
    (found, f, Found-All P td (difference td.txids others) found k f)
