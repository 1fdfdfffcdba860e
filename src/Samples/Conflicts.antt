-- ===== src/Samples/Conflicts.antt =====
-- The witness of the theorem on the grouping of conflicting outpoints: two transactions that spend
-- the same two outpoints.
use miningpool_observer.Prelude.{ℕ_discrete, ◌≡◌, refl, some, List, [], ◌∷◌, contains}
use miningpool_observer.Bitcoin.{OutPoint, outpoint_eq}
use miningpool_observer.Model.{TxInfo, TxInfo-discrete}
use miningpool_observer.Conflicts.{Conflict, group_outpoints}
use miningpool_observer.Conflicts.Marks.{held}
use miningpool_observer.Conflicts.Coverage.{group_outpoints-covers}
use miningpool_observer.Samples.{sample, sample_info}

abbrev outpoint : OutPoint
outpoint = record { txid = 9 ∷ []; vout = 0 }

abbrev other_outpoint : OutPoint
other_outpoint = record { txid = 9 ∷ []; vout = 1 }

abbrev template_spends : List (OutPoint × TxInfo)
template_spends = (outpoint, sample_info 1) ∷ (other_outpoint, sample_info 1) ∷ []

abbrev block_spends : List (OutPoint × TxInfo)
block_spends = (outpoint, sample_info 2) ∷ (other_outpoint, sample_info 3) ∷ []

abbrev grouped : List Conflict
grouped =
    record {
      template_transactions = sample_info 1 ∷ [];
      block_transactions = sample_info 2 ∷ sample_info 3 ∷ [];
      conflicting_outpoints = outpoint ∷ other_outpoint ∷ [];
    }
    ∷ []

group_sample :
    group_outpoints sample template_spends block_spends (outpoint ∷ other_outpoint ∷ []) []
    ≡ some grouped
unfolding group_outpoints TxInfo-discrete ℕ_discrete
group_sample = refl

group_outpoints-covers_example :
    held other_outpoint grouped ≡ contains other_outpoint (outpoint ∷ other_outpoint ∷ [])
group_outpoints-covers_example =
    group_outpoints-covers sample template_spends block_spends (outpoint ∷ other_outpoint ∷ [])
      grouped other_outpoint group_sample
