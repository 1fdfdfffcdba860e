-- ===== src/Conflicts/Spending.antt =====
-- Who spends the conflicting outpoints: the lookups of `build_conflicting_transactions`.
use miningpool_observer.Prelude.{
  ◌≡◌, refl, Bool, true, ◌||◌, inl, inr, Option, some, List, [], ◌∷◌, contains,
  contains-intersection, contains-set_insert, set_insert, intersection, lookup, lookup-insert,
  insert, is_some, any, ◌==◌, beq_refl, list_eq, nat_eq, Option-cases, arith, ℤ,
}
use miningpool_observer.Bitcoin.{Text, Txid, OutPoint, TxIn, Libraries, outpoint_eq}
use miningpool_observer.Model.{TxInfo}
use miningpool_observer.Sanctions.{UtxoMap}
use miningpool_observer.Transactions.{Transactions}
use miningpool_observer.Transactions.References.{Found}
use miningpool_observer.Conflicts.{
  Spent, nothing_spent, Conflict, spend_inputs, spent_by, add_outpoint, group_outpoints,
  build_conflicting_transactions,
}

-- The transaction spends the outpoint.
abbrev pub spends_outpoint : OutPoint → TxInfo → Bool
spends_outpoint o info = any (λ i. o == i.previous_output) info.tx.input

-- The set of outpoints and the map have the same outpoints.
abbrev pub Covers : Spent → Type 0
Covers s = (o : OutPoint) → contains o s.outpoints ≡ is_some (lookup o s.outpoints_to_txinfo)

abbrev spend_one : TxInfo → OutPoint → Spent → Spent
spend_one info p s = record {
  outpoints = set_insert p s.outpoints;
  outpoints_to_txinfo = insert p info s.outpoints_to_txinfo;
}

spend_one-Covers :
    (info : TxInfo) (p : OutPoint) (s : Spent) → Covers s → Covers (spend_one info p s)
spend_one-Covers info p s h o =
    ground (
      arith,
      contains-set_insert o p s.outpoints,
      lookup-insert p o info s.outpoints_to_txinfo,
      h o,
    )

spend_inputs-Covers :
    (info : TxInfo) (is : List TxIn) (s : Spent) → Covers s → Covers (spend_inputs info is s)
unfolding spend_inputs
spend_inputs-Covers info [] s h = h
spend_inputs-Covers info (i ∷ is) s h =
    spend_inputs-Covers info is (spend_one info i.previous_output s)
      (spend_one-Covers info i.previous_output s h)

contains-spend_inputs :
    (o : OutPoint) (info : TxInfo) (is : List TxIn) (s : Spent)
    → contains o (spend_inputs info is s).outpoints
      ≡ any (λ i. o == i.previous_output) is || contains o s.outpoints
unfolding spend_inputs
contains-spend_inputs o info [] s = refl
contains-spend_inputs o info (i ∷ is) s = ground (
  arith,
  contains-spend_inputs o info is (spend_one info i.previous_output s),
  contains-set_insert o i.previous_output s.outpoints,
)

-- Without a panic: the outpoints that one of the found transactions spends.
abbrev Spending : List TxInfo → Spent → Option Spent → Type 0
Spending found s r =
    (s' : Spent) × (r ≡ some s')
    × Covers s'
    × ((o : OutPoint)
        → contains o s'.outpoints ≡ any (spends_outpoint o) found || contains o s.outpoints)

spent_by-Spending :
    (txids : List Txid) (infos : List (Txid × TxInfo)) (found : List TxInfo) (s : Spent)
    → Found txids infos found
    → Covers s
    → Spending found s (spent_by txids infos s)
unfolding spent_by
spent_by-Spending [] infos [] s f h = (s, refl, h, λ o. refl)
spent_by-Spending [] infos (i ∷ is) s f h = absurd f
spent_by-Spending (txid ∷ txids) infos [] s f h = absurd f
spent_by-Spending (txid ∷ txids) infos (info ∷ found) s f h =
    let step = spend_inputs info info.tx.input s in
    let (s', r, covers, has) =
      spent_by-Spending txids infos found step f.1 (spend_inputs-Covers info info.tx.input s h) in
    (
      s',
      ground arith,
      covers,
      λ o. ground (arith, has o, contains-spend_inputs o info info.tx.input s),
    )

module _ (lib : Libraries) where
  group_outpoints-total :
      (template block : List (OutPoint × TxInfo)) (cos : List OutPoint) (conflicts : List Conflict)
      → ((o : OutPoint) → contains o cos ≡ true → is_some (lookup o template) ≡ true)
      → ((o : OutPoint) → contains o cos ≡ true → is_some (lookup o block) ≡ true)
      → is_some (group_outpoints lib template block cos conflicts) ≡ true
  unfolding group_outpoints
  group_outpoints-total template block [] conflicts h k = refl
  group_outpoints-total template block (co ∷ cos) conflicts h k =
      elim (Option-cases (lookup co template)) [
        | inl e ↦ absurd (ground (arith, h co, beq_refl co))
        | inr (t, e) ↦ elim (Option-cases (lookup co block)) [
          | inl q ↦ absurd (ground (arith, k co, beq_refl co))
          | inr (b, q) ↦
              let rest =
                group_outpoints-total template block cos (add_outpoint lib t b co conflicts)
                  (λ o c. h o (ground arith)) (λ o c. k o (ground arith)) in
              ground arith
        ]
      ]

  module _ (utxos : UtxoMap) (addresses : List Text) where
    -- If the transactions of both sets are found, then there is no panic: each conflicting
    -- outpoint has a transaction of the template and one of the block that spend it.
    pub build_conflicting_transactions-total :
        (block_id : ℤ) (only_in_template : List Txid) (template_infos : List (Txid × TxInfo))
        (only_in_block : List Txid) (block_infos : List (Txid × TxInfo)) (m : Transactions)
        (in_template in_block : List TxInfo)
        → Found only_in_template template_infos in_template
        → Found only_in_block block_infos in_block
        → is_some (
            build_conflicting_transactions lib utxos addresses block_id only_in_template
              template_infos only_in_block block_infos m)
          ≡ true
    unfolding build_conflicting_transactions
    build_conflicting_transactions-total block_id only_in_template template_infos only_in_block
          block_infos m in_template in_block f g =
        let (s, r, covers, _) =
          spent_by-Spending only_in_template template_infos in_template nothing_spent f
            (λ o. refl) in
        let (s', r', covers', _) =
          spent_by-Spending only_in_block block_infos in_block nothing_spent g (λ o. refl) in
        let total =
          group_outpoints-total s.outpoints_to_txinfo s'.outpoints_to_txinfo
            (intersection s.outpoints s'.outpoints) []
            (λ o c. ground (arith, covers o, contains-intersection o s.outpoints s'.outpoints))
            (λ o c. ground (arith, covers' o, contains-intersection o s.outpoints s'.outpoints)) in
        elim (Option-cases (
          group_outpoints lib s.outpoints_to_txinfo s'.outpoints_to_txinfo
            (intersection s.outpoints s'.outpoints) [])) [
              | inl e ↦ absurd (ground arith)
              | inr (cs, e) ↦ ground arith
            ]
