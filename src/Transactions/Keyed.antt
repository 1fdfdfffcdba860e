-- ===== src/Transactions/Keyed.antt =====
-- What `add_to_transactions` preserves, the loops preserve; and that each transaction stands under
-- its own txid.
use mathlib.Core.Path.{subst}
use miningpool_observer.Prelude.{
  ◌≡◌, refl, sym, Bool, true, false, Option, none, some, List, [], ◌∷◌, map, reverse, contains,
  lookup, is_some, ℤ, ◌==◌, list_eq, nat_eq, int_eq, beq→eq, beq_refl, Option-cases, Bool-cases,
  inl, inr, arith,
}
use miningpool_observer.Bitcoin.{Bytes, Text, Txid, Libraries}
use miningpool_observer.Model.{
  TxInfo, TxData, Transaction, TransactionOnlyInBlock, TransactionOnlyInTemplate,
  SanctionedTransactionInfo,
}
use miningpool_observer.Sanctions.{UtxoMap, is_tx_sanctioned}
use miningpool_observer.Transactions.{
  Transactions, add_to_transactions, build_transaction, add_built, build_transactions_only_in_block,
  build_transactions_only_in_template, sanctioned_infos, build_sanctioned_transaction_infos,
}
use miningpool_observer.Transactions.Merge.{kept, lookup-add_to_transactions}

-- Each transaction stands under its own txid.
abbrev pub Keyed : Transactions → Type 0
Keyed m = (k : Bytes) (t : Transaction) → lookup k m ≡ some t → t.txid ≡ k

pub no-Keyed : Keyed []
no-Keyed k t l = absurd (ground arith)

kept-txid :
    (k : Bytes) (o : Option Transaction) (new : Transaction)
    → new.txid ≡ k
    → ((t : Transaction) → o ≡ some t → t.txid ≡ k)
    → (kept o new).txid ≡ k
kept-txid k none new e h = e
kept-txid k (some t) new e h = elim (Bool-cases (t.tags == new.tags)) [
  | inl q ↦ ground (arith, h t refl)
  | inr q ↦ ground (arith, h t refl)
]

pub add_to_transactions-Keyed :
    (new : Transaction) (m : Transactions) → Keyed m → Keyed (add_to_transactions new m)
add_to_transactions-Keyed new m h k t l = elim (Bool-cases (k == new.txid)) [
  | inl q ↦
      let there : kept (lookup k m) new ≡ t = ground (arith, lookup-add_to_transactions k new m) in
      subst (λ (u : Transaction). u.txid ≡ k) there
        (kept-txid k (lookup k m) new (sym (beq→eq k new.txid q)) (λ u e. h k u e))
  | inr q ↦ h k t (ground (arith, lookup-add_to_transactions k new m))
]

-- A txid that is found is the txid of one of the transactions.
pub contains-txids :
    (k : Bytes) (m : Transactions)
    → Keyed m
    → is_some (lookup k m) ≡ true
    → contains k (map (λ e. e.1.txid) m) ≡ true
contains-txids k m keyed h = elim (Option-cases (lookup k m)) [
  | inl e ↦ absurd (ground arith)
  | inr (t, e) ↦ found m t e (keyed k t e)
]
  where
    found :
        (n : Transactions) (t : Transaction)
        → lookup k n ≡ some t
        → t.txid ≡ k
        → contains k (map (λ e. e.1.txid) n) ≡ true
    found [] t e s = absurd (ground arith)
    found ((j, u) ∷ n) t e s = elim (Bool-cases (k == j)) [
      | inl q ↦
          let same : u ≡ t = ground arith in
          let here : (k == u.txid) ≡ true = rw (same, s) (beq_refl k) in ground arith
      | inr q ↦ ground (arith, found n t)
    ]

module _ {κ} (lib : Libraries) (utxos : UtxoMap) (addresses : List Text) (Q : Transactions → Type κ)
    (step : (new : Transaction) (m : Transactions) → Q m → Q (add_to_transactions new m)) where
  pub add_built-Preserves :
      (k : Bytes) (info : TxInfo) (c : Bool) (m : Transactions)
      → Q m
      → Q (add_built lib utxos addresses k info c m)
  unfolding add_built
  add_built-Preserves k info c m h =
      elim (Option-cases (build_transaction lib utxos addresses k info c)) [
        | inl e ↦ rw (e, add_built) h
        | inr (t, e) ↦ rw (e, add_built) (step t m h)
      ]

  pub only_in_block-Preserves :
      (block_id : ℤ) (txids : List Txid) (infos : List (Txid × TxInfo)) (m m' : Transactions)
      (rows : List TransactionOnlyInBlock)
      → build_transactions_only_in_block lib utxos addresses block_id txids infos m
        ≡ some (rows, m')
      → Q m
      → Q m'
  unfolding build_transactions_only_in_block
  only_in_block-Preserves block_id [] infos m m' rows r h = subst Q (ground arith) h
  only_in_block-Preserves block_id (txid ∷ txids) infos m m' rows r h =
      elim (Option-cases (lookup txid infos)) [
        | inl e ↦ absurd (ground arith)
        | inr (info, e) ↦
            let added = add_built lib utxos addresses (reverse info.txid) info false m in
            elim (Option-cases
              (build_transactions_only_in_block lib utxos addresses block_id txids infos added)) [
                | inl q ↦ absurd (ground arith)
                | inr ((rest, m''), q) ↦
                    only_in_block-Preserves block_id txids infos added m' rest (ground arith)
                      (add_built-Preserves (reverse info.txid) info false m h)
              ]
      ]

  pub only_in_template-Preserves :
      (block_id : ℤ) (txids : List Txid) (infos : List (Txid × TxInfo)) (ages : List (Txid × ℤ))
      (m m' : Transactions) (rows : List TransactionOnlyInTemplate)
      → build_transactions_only_in_template lib utxos addresses block_id txids infos ages m
        ≡ some (rows, m')
      → Q m
      → Q m'
  unfolding build_transactions_only_in_template
  only_in_template-Preserves block_id [] infos ages m m' rows r h = subst Q (ground arith) h
  only_in_template-Preserves block_id (txid ∷ txids) infos ages m m' rows r h =
      elim (Option-cases (lookup txid infos)) [
        | inl e ↦ absurd (ground arith)
        | inr (info, e) ↦
            let added = add_built lib utxos addresses (reverse info.txid) info false m in
            elim (Option-cases (
              build_transactions_only_in_template lib utxos addresses block_id txids infos ages
                added)) [
                  | inl q ↦ absurd (ground arith)
                  | inr ((rest, m''), q) ↦
                      only_in_template-Preserves block_id txids infos ages added m' rest
                        (ground arith) (add_built-Preserves (reverse info.txid) info false m h)
                ]
      ]

  module _ (block_id : ℤ) where
    abbrev run :
        (Txid → Bool)
        → Bool
        → List Txid
        → List (Txid × TxInfo)
        → Transactions
        → Option (List SanctionedTransactionInfo × Transactions)
    run in_block in_template = sanctioned_infos lib utxos addresses block_id in_block in_template

    sanctioned_infos-Preserves :
        (in_block : Txid → Bool) (in_template : Bool) (txids : List Txid)
        (infos : List (Txid × TxInfo)) (m m' : Transactions) (rows : List SanctionedTransactionInfo)
        → run in_block in_template txids infos m ≡ some (rows, m')
        → Q m
        → Q m'
    unfolding sanctioned_infos
    sanctioned_infos-Preserves in_block in_template [] infos m m' rows r h =
        subst Q (ground arith) h
    sanctioned_infos-Preserves in_block in_template (txid ∷ txids) infos m m' rows r h =
        elim (Option-cases (lookup txid infos)) [
          | inl e ↦ absurd (ground arith)
          | inr (info, e) ↦ elim (Bool-cases (is_tx_sanctioned lib info.tx utxos addresses)) [
            | inl s ↦
                elim (Option-cases
                  (build_transaction lib utxos addresses (reverse info.txid) info false)) [
                    | inl b ↦
                        sanctioned_infos-Preserves in_block in_template txids infos m m' rows
                          (ground arith) h
                    | inr (t, b) ↦
                        elim (Option-cases
                          (run in_block in_template txids infos (add_to_transactions t m))) [
                            | inl q ↦ absurd (ground arith)
                            | inr ((rest, m''), q) ↦
                                sanctioned_infos-Preserves in_block in_template txids infos
                                  (add_to_transactions t m) m' rest (ground arith) (step t m h)
                          ]
                  ]
            | inr s ↦
                sanctioned_infos-Preserves in_block in_template txids infos m m' rows (ground arith)
                  h
          ]
        ]

    pub sanctioned-Preserves :
        (block : TxData) (template_txids only_in_block : List Txid)
        (template_infos : List (Txid × TxInfo)) (m m' : Transactions)
        (rows : List SanctionedTransactionInfo)
        → build_sanctioned_transaction_infos lib utxos addresses block_id block template_txids
            template_infos only_in_block m
          ≡ some (rows, m')
        → Q m
        → Q m'
    unfolding build_sanctioned_transaction_infos
    sanctioned-Preserves block template_txids only_in_block template_infos m m' rows r h =
        let in_block = λ (txid : Txid). contains txid block.txids in
        elim (Option-cases (run in_block true template_txids template_infos m)) [
          | inl e ↦ absurd (ground arith)
          | inr ((rows₁, m₁), e) ↦
              let h₁ =
                sanctioned_infos-Preserves in_block true template_txids template_infos m m₁ rows₁ e
                  h in
              elim (Option-cases
                (run (λ txid. true) false only_in_block block.txid_to_txinfo_map m₁)) [
                  | inl q ↦ absurd (ground arith)
                  | inr ((rows₂, m₂), q) ↦
                      sanctioned_infos-Preserves (λ txid. true) false only_in_block
                        block.txid_to_txinfo_map m₁ m' rows₂ (ground arith) h₁
                ]
        ]
