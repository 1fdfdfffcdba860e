-- ===== src/Conflicts/Added.antt =====
-- What `add_to_transactions` preserves, `build_conflicting_transactions` preserves.
use mathlib.Core.Path.{subst}
use miningpool_observer.Prelude.{
  ◌≡◌, true, some, List, [], ◌∷◌, reverse, intersection, ℤ, Option-cases, inl, inr, arith,
}
use miningpool_observer.Bitcoin.{Text, Txid, Libraries, outpoint_eq}
use miningpool_observer.Model.{TxInfo, Transaction, ConflictingTransaction}
use miningpool_observer.Sanctions.{UtxoMap}
use miningpool_observer.Transactions.{Transactions, add_to_transactions, add_built}
use miningpool_observer.Transactions.Keyed.{add_built-Preserves}
use miningpool_observer.Conflicts.{
  Conflict, nothing_spent, spent_by, group_outpoints, add_conflicting, report_conflicts,
  build_conflicting_transactions,
}

module _ {κ} (lib : Libraries) (utxos : UtxoMap) (addresses : List Text) (Q : Transactions → Type κ)
    (step : (new : Transaction) (m : Transactions) → Q m → Q (add_to_transactions new m)) where
  add_conflicting-Preserves :
      (ts : List TxInfo) (m : Transactions) → Q m → Q (add_conflicting lib utxos addresses ts m)
  unfolding add_conflicting
  add_conflicting-Preserves [] m h = h
  add_conflicting-Preserves (t ∷ ts) m h =
      add_conflicting-Preserves ts (add_built lib utxos addresses (reverse t.txid) t true m)
        (add_built-Preserves lib utxos addresses Q step (reverse t.txid) t true m h)

  report_conflicts-Preserves :
      (block_id : ℤ) (cs : List Conflict) (m : Transactions)
      → Q m
      → Q (report_conflicts lib utxos addresses block_id cs m).1
  unfolding report_conflicts
  report_conflicts-Preserves block_id [] m h = h
  report_conflicts-Preserves block_id (c ∷ cs) m h = report_conflicts-Preserves block_id cs _ (
      add_conflicting-Preserves c.block_transactions _
        (add_conflicting-Preserves c.template_transactions m h))

  pub build_conflicting-Preserves :
      (block_id : ℤ) (only_in_template : List Txid) (template_infos : List (Txid × TxInfo))
      (only_in_block : List Txid) (block_infos : List (Txid × TxInfo)) (m m' : Transactions)
      (rows : List ConflictingTransaction)
      → build_conflicting_transactions lib utxos addresses block_id only_in_template template_infos
          only_in_block block_infos m
        ≡ some (rows, m')
      → Q m
      → Q m'
  unfolding build_conflicting_transactions
  build_conflicting-Preserves block_id only_in_template template_infos only_in_block block_infos m
        m' rows r h =
      elim (Option-cases (spent_by only_in_template template_infos nothing_spent)) [
        | inl e ↦ absurd (ground arith)
        | inr (s, e) ↦ elim (Option-cases (spent_by only_in_block block_infos nothing_spent)) [
          | inl e' ↦ absurd (ground arith)
          | inr (s', e') ↦
              elim (Option-cases (
                group_outpoints lib s.outpoints_to_txinfo s'.outpoints_to_txinfo
                  (intersection s.outpoints s'.outpoints) [])) [
                    | inl q ↦ absurd (ground arith)
                    | inr (cs, q) ↦
                        let same : (report_conflicts lib utxos addresses block_id cs m).1 ≡ m' =
                          ground arith in
                        subst Q same (report_conflicts-Preserves block_id cs m h)
                  ]
        ]
      ]
