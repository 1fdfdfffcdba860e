-- ===== src/Samples/Witnesses.antt =====
-- Witnesses of the theorems on tags, packages, sanctions and the sets of transactions.
use miningpool_observer.Prelude.{
  ℕ, map, any, eqb, to_map, as_i32, ◌≡◌, refl, true, some, List, [], ◌∷◌, pos, reverse, ◌↔◌, nat_eq,
  list_eq, int_eq,
}
use miningpool_observer.Bitcoin.{Txid, outpoint_eq, GetBlockTemplateResult}
use miningpool_observer.Model.{prev_output_txids, TxInfo, TxData, TxPackage}
use miningpool_observer.Tags.{TxTag, discriminant, try_from}
use miningpool_observer.Tags.Codes.{tag_eq, try_from_iff}
use miningpool_observer.Packages.{belongs, build_packages, known_txids}
use miningpool_observer.Packages.Partition.{block_order, build_packages-partition}
use miningpool_observer.Packages.Links.{Chain, build_packages-Chain}
use miningpool_observer.TxSets.{build_block_tx_data}
use miningpool_observer.TxSets.Index.{Agrees, block_txids, build_block_tx_data-Agrees}
use miningpool_observer.Templates.Debug.{debug_infos-select_best}
use miningpool_observer.Templates.{
  DebugTemplateSelectionInfo, build_debug_template_selection_infos, missing_and_extra,
  select_best_template_for_block,
}
use miningpool_observer.Templates.Best.{FirstLeast, select_best_template_for_block-FirstLeast}
use miningpool_observer.Samples.{sample, tx_of, sample_block, sample_fees, template_on, sample_info}

try_from_iff_example :
    (try_from (pos 3110) ≡ some TxTag.young) ↔ (pos 3110 ≡ discriminant TxTag.young)
try_from_iff_example = try_from_iff (pos 3110) TxTag.young

-- The second transaction spends the first; the third is on its own.
abbrev child : TxInfo
child = record (sample_info 2) {
  tx = record (tx_of 2) {
    input =
        record {
          previous_output = record { txid = 1 ∷ []; vout = 0 };
          script_sig = [];
          sequence = 0;
          witness = [];
        }
        ∷ [];
  };
}

abbrev family : List TxInfo
family = sample_info 1 ∷ child ∷ sample_info 3 ∷ []

build_packages-partition_example :
    (packages : List TxPackage) × (build_packages sample family ≡ some packages)
    × (block_order packages ≡ family)
build_packages-partition_example = build_packages-partition sample family

abbrev family_packages : List TxPackage
family_packages =
    record { txns = child ∷ sample_info 1 ∷ [] } ∷ record { txns = sample_info 3 ∷ [] } ∷ []

build_family : build_packages sample family ≡ some family_packages
unfolding build_packages belongs prev_output_txids
build_family = refl

build_packages-Chain_example : Chain sample (known_txids sample family) (reverse family_packages)
build_packages-Chain_example = build_packages-Chain sample family family_packages build_family

abbrev pub first_info : TxInfo
first_info = record { txid = 1 ∷ []; tx = tx_of 1; position = pos 0; fee = 0 }

abbrev pub second_info : TxInfo
second_info = record { txid = 2 ∷ []; tx = tx_of 2; position = pos 1; fee = 30 }

abbrev pub sample_block_data : TxData
sample_block_data = record {
  txids = (2 ∷ []) ∷ (1 ∷ []) ∷ [];
  txid_to_txinfo_map = ((1 ∷ []), first_info) ∷ ((2 ∷ []), second_info) ∷ [];
  txinfos = first_info ∷ second_info ∷ [];
}

build_sample : build_block_tx_data sample sample_block sample_fees ≡ some sample_block_data
unfolding build_block_tx_data to_map as_i32
build_sample = refl

build_block_tx_data-Agrees_example :
    Agrees (block_txids sample sample_block.txdata) sample_block_data
build_block_tx_data-Agrees_example =
    build_block_tx_data-Agrees sample sample_block sample_fees sample_block_data build_sample

abbrev sample_template : GetBlockTemplateResult
sample_template = template_on (7 ∷ []) (2 ∷ 3 ∷ [])

abbrev sample_txids : List Txid
sample_txids = (1 ∷ []) ∷ (2 ∷ []) ∷ []

select_best_template_for_block-FirstLeast_example :
    (best : GetBlockTemplateResult) × (select_best_template_for_block
        (sample_template ∷ [])
        sample_txids
      ≡ some best)
    × FirstLeast (missing_and_extra sample_txids) best (sample_template ∷ [])
select_best_template_for_block-FirstLeast_example =
    select_best_template_for_block-FirstLeast sample_template [] sample_txids

abbrev debug_row : DebugTemplateSelectionInfo ℕ
debug_row = record {
  block_id = pos 5;
  template_time = 40;
  count_missing = pos 1;
  count_shared = pos 1;
  count_extra = pos 1;
  selected = true;
}

debug_sample :
    build_debug_template_selection_infos sample (pos 5) (sample_template ∷ []) sample_txids 40
    ≡ some (debug_row ∷ [])
unfolding build_debug_template_selection_infos as_i32
debug_sample = refl

select_sample :
    select_best_template_for_block (sample_template ∷ []) sample_txids ≡ some sample_template
unfolding select_best_template_for_block
select_sample = refl

debug_infos-select_best_example :
    (map (λ r. r.selected) (debug_row ∷ [])
      ≡ map (λ t. eqb t.current_time sample_template.current_time) (sample_template ∷ []))
    × (any (λ r. r.selected) (debug_row ∷ []) ≡ true)
debug_infos-select_best_example =
    debug_infos-select_best sample (pos 5) (sample_template ∷ []) sample_txids sample_template
      (debug_row ∷ []) select_sample debug_sample
