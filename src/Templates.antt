-- ===== src/Templates.antt =====
-- `select_best_template_for_block` of daemon/src/main.rs, and
-- `build_debug_template_selection_infos` of daemon/src/processing.rs.
use miningpool_observer.Prelude.{
  ℕ, ◌+◌, Bool, Option, none, some, List, [], ◌∷◌, map, to_set, difference, intersection, length,
  eqb, ltb, if◌then◌else◌, ℤ, as_i32, list_eq, nat_eq, ◌>>=◌,
}
use miningpool_observer.Bitcoin.{Txid, GetBlockTemplateResult, Libraries}
pub mod Best
pub mod Debug

-- `min_by_key`: the first of the elements with the least key.
module _ {A : Type 0} (key : A → ℕ) where
  unfoldable pub min_from : A → List A → A
  min_from best [] = best
  min_from best (x ∷ xs) = min_from (if ltb (key x) (key best) then x else best) xs

  unfoldable pub min_by_key : List A → Option A
  unfolding min_from
  min_by_key [] = none
  min_by_key (x ∷ xs) = some (min_from x xs)

abbrev pub template_txids : GetBlockTemplateResult → List Txid
template_txids t = to_set (map (λ tx. tx.txid) t.transactions)

unfoldable pub missing_and_extra : List Txid → GetBlockTemplateResult → ℕ
missing_and_extra block_txids t =
    length (difference (template_txids t) block_txids)
    + length (difference block_txids (template_txids t))

-- `none` stands for the failed assertion on an empty queue.
unfoldable pub select_best_template_for_block :
    List GetBlockTemplateResult → List Txid → Option GetBlockTemplateResult
unfolding min_by_key
select_best_template_for_block last_templates block_txids =
    min_by_key (missing_and_extra block_txids) last_templates

pub record DebugTemplateSelectionInfo (Time : Type 0) : Type 0 where
  pub block_id : ℤ
  pub template_time : Time
  pub count_missing : ℤ
  pub count_shared : ℤ
  pub count_extra : ℤ
  pub selected : Bool

module _ (lib : Libraries) where
  open lib use {NaiveDateTime, from_timestamp}

  -- `none` stands for a timestamp that is out of range.
  unfoldable pub build_debug_template_selection_infos :
      ℤ
      → List GetBlockTemplateResult
      → List Txid
      → ℕ
      → Option (List (DebugTemplateSelectionInfo NaiveDateTime))
  build_debug_template_selection_infos block_id [] block_txids selected_time = some []
  build_debug_template_selection_infos block_id (t ∷ ts) block_txids selected_time = do
    time ← from_timestamp t.current_time
    rest ← build_debug_template_selection_infos block_id ts block_txids selected_time
    some (
        record {
          block_id = block_id;
          template_time = time;
          count_missing = as_i32 (length (difference (template_txids t) block_txids));
          count_shared = as_i32 (length (intersection block_txids (template_txids t)));
          count_extra = as_i32 (length (difference block_txids (template_txids t)));
          selected = eqb t.current_time selected_time;
        }
        ∷ rest)
