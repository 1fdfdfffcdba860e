-- ===== src/Conflicts/Reports.antt =====
-- The rows of `build_conflicting_transactions`, and the transactions that they refer to.
use miningpool_observer.Prelude.{
  ◌≡◌, true, some, List, [], ◌∷◌, map, reverse, All, All-mono, intersection, ℤ, list_eq, nat_eq,
  Option-cases, inl, inr, arith,
}
use miningpool_observer.Bitcoin.{Text, Txid, Libraries, outpoint_eq}
use miningpool_observer.Model.{TxInfo, ConflictingTransaction}
use miningpool_observer.Sanctions.{UtxoMap}
use miningpool_observer.Transactions.{Transactions, add_built}
use miningpool_observer.Transactions.References.{
  Has, Keeps, Found, IsBuildable, Has-add_built, Keeps-add_built,
}
use miningpool_observer.Conflicts.{
  Conflict, nothing_spent, spent_by, group_outpoints, conflict_row, add_conflicting,
  report_conflicts, build_conflicting_transactions,
}
use miningpool_observer.Conflicts.Spending.{build_conflicting_transactions-total}
use miningpool_observer.Conflicts.Members.{
  MembersOf, no-Spenders, spent_by-Spenders, group_outpoints-Members,
}

-- All txids of the row are in the map.
abbrev pub ConflictRefers : Transactions → ConflictingTransaction → Type 0
ConflictRefers m row = All (Has m) row.template_txids × All (Has m) row.block_txids

module _ (lib : Libraries) (utxos : UtxoMap) (addresses : List Text) where
  abbrev Buildable : TxInfo → Type 0
  Buildable = IsBuildable lib utxos addresses

  add_conflicting-Has :
      (ts : List TxInfo) (m : Transactions)
      → All Buildable ts
      → All (Has (add_conflicting lib utxos addresses ts m)) (map (λ t. reverse t.txid) ts)
        × Keeps m (add_conflicting lib utxos addresses ts m)
  unfolding add_conflicting
  add_conflicting-Has [] m h = (tt, λ k p. p)
  add_conflicting-Has (t ∷ ts) m h =
      let key = reverse t.txid in
      let added = add_built lib utxos addresses key t true m in
      let (has, keeps) = add_conflicting-Has ts added h.1 in
      (
        (keeps key (Has-add_built lib utxos addresses key t true m h.0), has),
        λ k p. keeps k (Keeps-add_built lib utxos addresses key t true m k p),
      )

  module _ (block_id : ℤ) where
    report_conflicts-Has :
        (cs : List Conflict) (m : Transactions)
        → All (MembersOf Buildable) cs
        → let r = report_conflicts lib utxos addresses block_id cs m in
          All (ConflictRefers r.1) r.0 × Keeps m r.1
    unfolding report_conflicts conflict_row
    report_conflicts-Has [] m h = (tt, λ k p. p)
    report_conflicts-Has (c ∷ cs) m h =
        let m₁ = add_conflicting lib utxos addresses c.template_transactions m in
        let m₂ = add_conflicting lib utxos addresses c.block_transactions m₁ in
        let (has₁, keeps₁) = add_conflicting-Has c.template_transactions m h.0.0 in
        let (has₂, keeps₂) = add_conflicting-Has c.block_transactions m₁ h.0.1 in
        let (rest, keeps) = report_conflicts-Has cs m₂ h.1 in
        let m₃ = (report_conflicts lib utxos addresses block_id cs m₂).1 in
        (
          (
            (
              All-mono (Has m₁) (Has m₃) _ (λ k p. keeps k (keeps₂ k p)) has₁,
              All-mono (Has m₂) (Has m₃) _ keeps has₂,
            ),
            rest,
          ),
          λ k p. keeps k (keeps₂ k (keeps₁ k p)),
        )

    -- If the transactions of both sets are found and can be built, then there is no panic, every
    -- transaction that a conflict names is in the map afterwards, and the map keeps all that it
    -- had.
    pub build_conflicting_transactions-Has :
        (only_in_template : List Txid) (template_infos : List (Txid × TxInfo))
        (only_in_block : List Txid) (block_infos : List (Txid × TxInfo)) (m : Transactions)
        (in_template in_block : List TxInfo)
        → Found only_in_template template_infos in_template
        → Found only_in_block block_infos in_block
        → All Buildable in_template
        → All Buildable in_block
        → (rows : List ConflictingTransaction) × (m' : Transactions)
          × (build_conflicting_transactions lib utxos addresses block_id only_in_template
                template_infos only_in_block block_infos m
              ≡ some (rows, m'))
          × All (ConflictRefers m') rows
          × Keeps m m'
    unfolding build_conflicting_transactions
    build_conflicting_transactions-Has only_in_template template_infos only_in_block block_infos m
          in_template in_block f g h k =
        let total =
          build_conflicting_transactions-total lib utxos addresses block_id only_in_template
            template_infos only_in_block block_infos m in_template in_block f g in
        elim (Option-cases (spent_by only_in_template template_infos nothing_spent)) [
          | inl e ↦ absurd (ground arith)
          | inr (s, e) ↦ elim (Option-cases (spent_by only_in_block block_infos nothing_spent)) [
            | inl e' ↦ absurd (ground arith)
            | inr (s', e') ↦
                elim (Option-cases (
                  group_outpoints lib s.outpoints_to_txinfo s'.outpoints_to_txinfo
                    (intersection s.outpoints s'.outpoints) [])) [
                      | inl q ↦ absurd (ground arith)
                      | inr (cs, q) ↦
                          let members =
                            group_outpoints-Members Buildable lib s.outpoints_to_txinfo
                              s'.outpoints_to_txinfo (intersection s.outpoints s'.outpoints) [] cs
                              (spent_by-Spenders Buildable only_in_template template_infos
                                in_template nothing_spent s f h (no-Spenders Buildable) e)
                              (spent_by-Spenders Buildable only_in_block block_infos in_block
                                nothing_spent s' g k (no-Spenders Buildable) e')
                              tt q in
                          let (refers, keeps) = report_conflicts-Has cs m members in
                          (_, _, ground arith, refers, keeps)
                    ]
          ]
        ]
