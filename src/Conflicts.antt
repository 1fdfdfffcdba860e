-- ===== src/Conflicts.antt =====
-- `build_conflicting_transactions` of daemon/src/processing.rs: the sets of transactions of the
-- template and of the block that spend the same outpoints.
use miningpool_observer.Prelude.{
  ◌≡◌, ◌↔◌, beq→eq, beq_refl, arith, ℕ, zero, suc, Bool, true, false, not, ◌&&◌, ◌||◌, Option, none,
  some, List, [], ◌∷◌, ◌++◌, map, reverse, filter, contains, set_insert, intersection, lookup,
  insert, is_empty, flat_map, sort_by_key, dedup_by_key, sort, dedup, ℤ, as_i32, if◌then◌else◌,
  PartialEq, ◌==◌, eqb, list_eq, nat_eq, length, ◌>>=◌,
}
use miningpool_observer.Bitcoin.{Text, Txid, OutPoint, TxIn, Libraries, outpoint_eq}
use miningpool_observer.Model.{TxInfo, txinfo_eq, ConflictingTransaction}
use miningpool_observer.Sanctions.{UtxoMap}
use miningpool_observer.Transactions.{Transactions, add_built}
pub mod Spending
pub mod Marks
pub mod Coverage
pub mod Members
pub mod Reports
pub mod Added

pub record Conflict : Type 0 where
  pub template_transactions : List TxInfo
  pub block_transactions : List TxInfo
  pub conflicting_outpoints : List OutPoint

-- The derived `PartialEq`.
abbrev pub conflict_beq : Conflict → Conflict → Bool
conflict_beq c d =
    c.template_transactions == d.template_transactions
    && c.block_transactions == d.block_transactions
    && c.conflicting_outpoints == d.conflicting_outpoints

pub conflict_beq_iff : (c d : Conflict) → (conflict_beq c d ≡ true) ↔ (c ≡ d)
conflict_beq_iff c d = (
  λ h. ground (
    arith,
    beq→eq c.template_transactions d.template_transactions,
    beq→eq c.block_transactions d.block_transactions,
    beq→eq c.conflicting_outpoints d.conflicting_outpoints,
  ),
  λ h. rw h (
      ground (
        arith,
        beq_refl d.template_transactions,
        beq_refl d.block_transactions,
        beq_refl d.conflicting_outpoints,
      )),
)

instance abbrev pub conflict_eq : PartialEq Conflict
conflict_eq = record { equal = conflict_beq; equal_iff = conflict_beq_iff }

-- The outpoints that some transactions spend, and who spends each.
pub record Spent : Type 0 where
  pub outpoints : List OutPoint
  pub outpoints_to_txinfo : List (OutPoint × TxInfo)

abbrev pub nothing_spent : Spent
nothing_spent = record { outpoints = []; outpoints_to_txinfo = [] }

unfoldable pub spend_inputs : TxInfo → List TxIn → Spent → Spent
spend_inputs info [] s = s
spend_inputs info (i ∷ is) s = spend_inputs info is (record {
  outpoints = set_insert i.previous_output s.outpoints;
  outpoints_to_txinfo = insert i.previous_output info s.outpoints_to_txinfo;
})

-- The loops over the txids panic, `none`, on one that is not in the map.
unfoldable pub spent_by : List Txid → List (Txid × TxInfo) → Spent → Option Spent
unfolding spend_inputs
spent_by [] infos s = some s
spent_by (txid ∷ txids) infos s = elim (lookup txid infos) [
  | none ↦ none
  | some info ↦ spent_by txids infos (spend_inputs info info.tx.input s)
]

-- A conflict of the vector, with the mark that `existing_conficts_with_these_transactions` has a
-- reference to it.
pub record Marked : Type 0 where
  pub conflict : Conflict
  pub referenced : Bool

-- The loop that collects the references; `existing` holds the conflicts that they point to.
unfoldable pub mark_existing : TxInfo → TxInfo → List Conflict → List Conflict → List Marked
mark_existing template_tx block_tx existing [] = []
mark_existing template_tx block_tx existing (c ∷ cs) =
    let first = contains template_tx c.template_transactions && not (contains c existing) in
    let existing₁ = if first then existing ++ c ∷ [] else existing in
    let second = contains block_tx c.block_transactions && not (contains c existing₁) in
    let existing₂ = if second then existing₁ ++ c ∷ [] else existing₁ in
    record { conflict = c; referenced = first || second }
    ∷ mark_existing template_tx block_tx existing₂ cs

abbrev pub referenced_conflicts : List Marked → List Conflict
referenced_conflicts ms = map (λ m. m.conflict) (filter (λ m. m.referenced) ms)

-- `vec.push(a)`, if it is not there yet.
abbrev pub push_new : {A : Type 0} ⦃e : PartialEq A⦄ → A → List A → List A
push_new a xs = if contains a xs then xs else xs ++ a ∷ []

-- The arm for one reference: the conflict takes up the transactions and the outpoint.
abbrev pub extend_conflict : TxInfo → TxInfo → OutPoint → Conflict → Conflict
extend_conflict template_tx block_tx co c = record {
  template_transactions = push_new template_tx c.template_transactions;
  block_transactions = push_new block_tx c.block_transactions;
  conflicting_outpoints = push_new co c.conflicting_outpoints;
}

-- What is left of a conflict whose vectors were appended to others.
abbrev pub emptied : Conflict
emptied = record { template_transactions = []; block_transactions = []; conflicting_outpoints = [] }

-- The first referenced conflict becomes `merged`, the other referenced ones are emptied.
unfoldable pub replace_referenced : Conflict → List Marked → List Conflict
replace_referenced merged [] = []
replace_referenced merged (m ∷ ms) =
    let rest = replace_referenced (if m.referenced then emptied else merged) ms in
    (if m.referenced then merged else m.conflict) ∷ rest

module _ (lib : Libraries) where
  open lib use {bytes_order, outpoint_order}

  -- The arm for several references.
  unfoldable pub merge_conflicts : TxInfo → TxInfo → OutPoint → List Conflict → Conflict
  merge_conflicts template_tx block_tx co existing = record {
    template_transactions =
        dedup_by_key (λ t. t.txid)
          (sort_by_key ⦃o = bytes_order⦄ (λ t. t.txid)
            (template_tx ∷ flat_map (λ c. c.template_transactions) existing));
    block_transactions =
        dedup_by_key (λ t. t.txid)
          (sort_by_key ⦃o = bytes_order⦄ (λ t. t.txid)
            (block_tx ∷ flat_map (λ c. c.block_transactions) existing));
    conflicting_outpoints =
        dedup (sort ⦃o = outpoint_order⦄ (co ∷ flat_map (λ c. c.conflicting_outpoints) existing));
  }

  -- The `match` on the number of references.
  unfoldable pub update_conflicts :
      TxInfo → TxInfo → OutPoint → List Conflict → List Marked → List Conflict
  unfolding merge_conflicts replace_referenced
  update_conflicts template_tx block_tx co conflicts marked = elim (referenced_conflicts marked) [
    | [] ↦
        conflicts
        ++ record {
          template_transactions = template_tx ∷ [];
          block_transactions = block_tx ∷ [];
          conflicting_outpoints = co ∷ [];
        }
          ∷ []
    | c ∷ [] ↦
        map
          (λ m.
            if m.referenced then extend_conflict template_tx block_tx co m.conflict else m.conflict)
          marked
    | c ∷ d ∷ existing ↦
        replace_referenced (merge_conflicts template_tx block_tx co (c ∷ d ∷ existing)) marked
  ]

  -- The body of the loop over the conflicting outpoints. The source retains three times.
  unfoldable pub add_outpoint : TxInfo → TxInfo → OutPoint → List Conflict → List Conflict
  unfolding mark_existing update_conflicts
  add_outpoint template_tx block_tx co conflicts =
      filter (λ c. not (is_empty c.template_transactions))
        (update_conflicts template_tx block_tx co conflicts
          (mark_existing template_tx block_tx [] conflicts))

  -- The loop; an outpoint that no transaction is known to spend is a panic, `none`.
  unfoldable pub group_outpoints :
      List (OutPoint × TxInfo)
      → List (OutPoint × TxInfo)
      → List OutPoint
      → List Conflict
      → Option (List Conflict)
  unfolding add_outpoint
  group_outpoints template_spends block_spends [] conflicts = some conflicts
  group_outpoints template_spends block_spends (co ∷ cos) conflicts =
      elim (lookup co template_spends) [
        | none ↦ none
        | some template_tx ↦ elim (lookup co block_spends) [
          | none ↦ none
          | some block_tx ↦
              group_outpoints template_spends block_spends cos
                (add_outpoint template_tx block_tx co conflicts)
        ]
      ]

  unfoldable pub conflict_row : ℤ → Conflict → ConflictingTransaction
  conflict_row block_id c = record {
    block_id = block_id;
    template_txids = map (λ t. reverse t.txid) c.template_transactions;
    block_txids = map (λ t. reverse t.txid) c.block_transactions;
    conflicting_outpoints_txids = map (λ o. reverse o.txid) c.conflicting_outpoints;
    conflicting_outpoints_vouts = map (λ o. as_i32 o.vout) c.conflicting_outpoints;
  }

  module _ (utxos : UtxoMap) (addresses : List Text) where
    -- The loops that tag the transactions of a conflict.
    unfoldable pub add_conflicting : List TxInfo → Transactions → Transactions
    unfolding add_built
    add_conflicting [] transactions = transactions
    add_conflicting (t ∷ ts) transactions =
        add_conflicting ts (add_built lib utxos addresses (reverse t.txid) t true transactions)

    unfoldable pub report_conflicts :
        ℤ → List Conflict → Transactions → List ConflictingTransaction × Transactions
    unfolding conflict_row add_conflicting
    report_conflicts block_id [] transactions = ([], transactions)
    report_conflicts block_id (c ∷ cs) transactions =
        let added =
          add_conflicting c.block_transactions
            (add_conflicting c.template_transactions transactions) in
        let (rows, transactions') = report_conflicts block_id cs added in
        (conflict_row block_id c ∷ rows, transactions')

    -- Without a conflicting outpoint there is nothing to loop over, and the early return gives the
    -- same.
    unfoldable pub build_conflicting_transactions :
        ℤ
        → List Txid
        → List (Txid × TxInfo)
        → List Txid
        → List (Txid × TxInfo)
        → Transactions
        → Option (List ConflictingTransaction × Transactions)
    unfolding spent_by group_outpoints report_conflicts
    build_conflicting_transactions block_id only_in_template template_infos only_in_block
          block_infos transactions =
        do
          template ← spent_by only_in_template template_infos nothing_spent
          block ← spent_by only_in_block block_infos nothing_spent
          conflicts ←
              group_outpoints template.outpoints_to_txinfo block.outpoints_to_txinfo
                (intersection template.outpoints block.outpoints) []
          some (report_conflicts block_id conflicts transactions)
