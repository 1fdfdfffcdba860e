-- ===== src/Samples/Loop.antt =====
-- Witnesses of the main loop's theorems: a run over two turns, on the second of which a block is
-- compared and stored.
use miningpool_observer.Prelude.{
  ◌↔◌, ◌≡◌, ◌≤◌, refl, ℕ, true, none, some, [], ◌∷◌, pos, length, ◌+◌, to_map, insert,
}
use miningpool_observer.Bitcoin.{GetBlockTemplateResult}
use miningpool_observer.Process.Clearing.{Ends, process-Ends}
use miningpool_observer.MainLoop.Steps.{Step}
use miningpool_observer.MainLoop.Turns.{main_loop_turn-Step}
use miningpool_observer.Process.{
  Comparison, compare_block, Answers, done, process, block_row, build_rows,
}
use miningpool_observer.TxSets.{build_block_tx_data, build_template_tx_data}
use miningpool_observer.Templates.{
  select_best_template_for_block, missing_and_extra, build_debug_template_selection_infos,
}
use miningpool_observer.Packages.{build_packages, belongs}
use miningpool_observer.Model.{prev_output_txids, package_weight, package_feerate, feerate}
use miningpool_observer.Sanctions.{
  sanctioned_missing, is_tx_sanctioned, build_newly_created_sanctioned_utxos,
  build_outpoint_to_sanctioned_utxo_map,
}
use miningpool_observer.Blocks.{build_block}
use miningpool_observer.Conflicts.{build_conflicting_transactions}
use miningpool_observer.Transactions.{
  build_transactions_only_in_template, build_transactions_only_in_block,
  build_sanctioned_transaction_infos,
}
use miningpool_observer.MainLoop.{
  Rpc, first_template, new_block, Run, start, turn, main_loop_turn, max_old_templates,
}
use miningpool_observer.MainLoop.Reachable.{SameParent, unsettled, Run-length, Run-SameParent}
use miningpool_observer.MainLoop.Compared.{Compared, new_block-Compared, main_loop_turn-after_done}
use miningpool_observer.Samples.{sample, sample_block, sample_fees, template_on}

abbrev answers : Answers ℕ ℕ
answers = record {
  get_connection = true;
  get_connection_again = true;
  sanctioned_addresses = some [];
  get_sanctioned_utxos = some [];
  identify_pool = none;
  insert_block = λ b. some (pos 1);
  mempool_ages = λ txids. [];
  insert_transactions = λ rows. true;
  insert_transactions_only_in_block = λ rows. true;
  insert_transactions_only_in_template = λ rows. true;
  insert_sanctioned_transaction_infos = λ rows. true;
  insert_conflicting_transactions = λ rows. true;
  insert_sanctioned_utxos = λ rows. true;
  insert_debug_template_selection_infos = λ rows. true;
}

-- The node gives this template, and the block for all hashes.
abbrev node : GetBlockTemplateResult → Rpc
node t = record {
  get_block_template = some t;
  get_block = λ h. some sample_block;
  get_block_hash = λ n. none;
  get_block_txid_fee = λ h. some sample_fees;
}

abbrev before : GetBlockTemplateResult
before = template_on (7 ∷ []) (2 ∷ 3 ∷ [])

abbrev after : GetBlockTemplateResult
after = template_on (8 ∷ []) (3 ∷ [])

first_turn : main_loop_turn sample (node before) answers [] ≡ some (before ∷ [], first_template)
unfolding main_loop_turn
first_turn = refl

abbrev one_template : Run sample (before ∷ []) (first_template ∷ [])
one_template = turn (node before) answers start first_turn

second_turn :
    main_loop_turn sample (node after) answers (before ∷ [])
    ≡ some ([], new_block sample_block done)
unfolding main_loop_turn build_block_tx_data build_template_tx_data to_map insert
    select_best_template_for_block missing_and_extra build_debug_template_selection_infos
    build_packages belongs prev_output_txids package_weight package_feerate feerate block_row
    build_rows sanctioned_missing is_tx_sanctioned build_newly_created_sanctioned_utxos
    build_outpoint_to_sanctioned_utxo_map build_block build_conflicting_transactions
    build_transactions_only_in_template build_transactions_only_in_block
    build_sanctioned_transaction_infos
second_turn = refl

new_block-Compared_example : Compared sample (before ∷ []) [] sample_block done
new_block-Compared_example =
    new_block-Compared sample (before ∷ []) [] (first_template ∷ []) (node after) answers
      sample_block done one_template (tt, tt) second_turn

Run-length_example : length (before ∷ []) ≤ max_old_templates + unsettled (first_template ∷ [])
Run-length_example = Run-length sample (before ∷ []) (first_template ∷ []) one_template

Run-SameParent_example : SameParent (before ∷ [])
Run-SameParent_example =
    Run-SameParent sample (before ∷ []) (first_template ∷ []) one_template (tt, tt)

main_loop_turn-after_done_example :
    main_loop_turn sample (node after) answers [] ≡ some (after ∷ [], first_template)
main_loop_turn-after_done_example =
    main_loop_turn-after_done sample (before ∷ []) [] (node after) (node after) answers answers
      sample_block after second_turn refl

processed : process sample answers sample_block sample_fees (before ∷ []) ≡ some ([], done)
unfolding process build_block_tx_data build_template_tx_data select_best_template_for_block
    missing_and_extra build_debug_template_selection_infos build_packages belongs prev_output_txids
    package_weight package_feerate feerate block_row build_rows sanctioned_missing is_tx_sanctioned
    build_newly_created_sanctioned_utxos build_outpoint_to_sanctioned_utxo_map build_block
    build_conflicting_transactions build_transactions_only_in_template
    build_transactions_only_in_block build_sanctioned_transaction_infos to_map insert
processed = refl

process-Ends_example :
    (c : Comparison sample) × (compare_block sample sample_block sample_fees (before ∷ []) ≡ some c)
    × Ends sample answers sample_block sample_fees (before ∷ []) c ([], done)
process-Ends_example =
    process-Ends sample answers sample_block sample_fees (before ∷ []) ([], done) processed

main_loop_turn-Step_example :
    (main_loop_turn sample (node after) answers (before ∷ [])
      ≡ some ([], new_block sample_block done))
    ↔ Step sample (node after) answers (before ∷ []) [] (new_block sample_block done)
main_loop_turn-Step_example =
    main_loop_turn-Step sample (node after) answers (before ∷ []) [] (new_block sample_block done)
