-- ===== src/Transactions/Sanctioned.antt =====
-- The rows of `build_sanctioned_transaction_infos`.
use miningpool_observer.Prelude.{
  ◌≡◌, refl, ◌∙◌, Bool, true, false, ◌&&◌, Option, some, List, [], ◌∷◌, ◌++◌, map, reverse, filter,
  lookup, is_some, contains, All, All-append, All-mono, ℤ, list_eq, nat_eq, Option-cases,
  Bool-cases, inl, inr, arith, beq_refl,
}
use miningpool_observer.Bitcoin.{Text, Txid, Libraries}
use miningpool_observer.Model.{TxInfo, TxData, Transaction, SanctionedTransactionInfo}
use miningpool_observer.Sanctions.{UtxoMap, is_tx_sanctioned, tx_sanctioned_addresses}
use miningpool_observer.Transactions.{
  Transactions, add_to_transactions, build_transaction, sanctioned_infos,
  build_sanctioned_transaction_infos,
}
use miningpool_observer.Transactions.Merge.{is_some-lookup-add}
use miningpool_observer.Transactions.References.{
  Has, Keeps, Found, Keeps-add, txid-build_transaction,
}

module _ (lib : Libraries) (utxos : UtxoMap) (addresses : List Text) (block_id : ℤ) where
  open lib use {raw_tx_info}

  -- Sanctioned, and with a transaction that can be built.
  abbrev pub is_reported : TxInfo → Bool
  is_reported info = is_tx_sanctioned lib info.tx utxos addresses && is_some (raw_tx_info info.tx)

  abbrev pub sanctioned_row : (Txid → Bool) → Bool → TxInfo → SanctionedTransactionInfo
  sanctioned_row in_block in_template info = record {
    block_id = block_id;
    transaction_txid = reverse info.txid;
    in_block = in_block info.txid;
    in_template = in_template;
    addresses = tx_sanctioned_addresses lib info.tx utxos addresses;
  }

  module _ (in_block : Txid → Bool) (in_template : Bool) where
    abbrev run :
        List Txid
        → List (Txid × TxInfo)
        → Transactions
        → Option (List SanctionedTransactionInfo × Transactions)
    run txids infos m =
        sanctioned_infos lib utxos addresses block_id in_block in_template txids infos m

    abbrev Outcome : List Txid → List (Txid × TxInfo) → Transactions → List TxInfo → Type 0
    Outcome txids infos m found =
        (m' : Transactions) × (run txids infos m
          ≡ some (map (sanctioned_row in_block in_template) (filter is_reported found), m'))
        × All (λ info. Has m' (reverse info.txid)) (filter is_reported found)
        × Keeps m m'

    run_skip :
        (txid : Txid) (txids : List Txid) (infos : List (Txid × TxInfo)) (m : Transactions)
        (info : TxInfo)
        → lookup txid infos ≡ some info
        → is_reported info ≡ false
        → run (txid ∷ txids) infos m ≡ run txids infos m
    unfolding sanctioned_infos
    run_skip txid txids infos m info h k =
        elim (Option-cases (build_transaction lib utxos addresses (reverse info.txid) info false)) [
          | inl e ↦ ground arith
          | inr (t, e) ↦
              ground
                (arith, txid-build_transaction lib utxos addresses (reverse info.txid) info false)
        ]

    run_report :
        (txid : Txid) (txids : List Txid) (infos : List (Txid × TxInfo)) (m m' : Transactions)
        (info : TxInfo) (t : Transaction) (rows : List SanctionedTransactionInfo)
        → lookup txid infos ≡ some info
        → is_tx_sanctioned lib info.tx utxos addresses ≡ true
        → build_transaction lib utxos addresses (reverse info.txid) info false ≡ some t
        → run txids infos (add_to_transactions t m) ≡ some (rows, m')
        → run (txid ∷ txids) infos m ≡ some (sanctioned_row in_block in_template info ∷ rows, m')
    unfolding sanctioned_infos
    run_report txid txids infos m m' info t rows h s b r = ground arith

    built :
        (info : TxInfo)
        → is_reported info ≡ true
        → (is_tx_sanctioned lib info.tx utxos addresses ≡ true)
          × (t : Transaction) × (build_transaction lib utxos addresses
                (reverse info.txid)
                info
                false
              ≡ some t)
          × (t.txid ≡ reverse info.txid)
    built info k =
        let fact = txid-build_transaction lib utxos addresses (reverse info.txid) info false in
        elim (Option-cases (build_transaction lib utxos addresses (reverse info.txid) info false)) [
          | inl e ↦ absurd (ground (arith, fact))
          | inr (t, e) ↦ (ground arith, t, e, ground (arith, fact))
        ]

    outcome :
        (txids : List Txid) (infos : List (Txid × TxInfo)) (m : Transactions) (found : List TxInfo)
        → Found txids infos found
        → Outcome txids infos m found
    unfolding sanctioned_infos
    outcome [] infos m [] h = (m, refl, tt, λ k p. p)
    outcome [] infos m (i ∷ is) h = absurd h
    outcome (txid ∷ txids) infos m [] h = absurd h
    outcome (txid ∷ txids) infos m (info ∷ found) h = elim (Bool-cases (is_reported info)) [
      | inl q ↦
          let (s, t, b, same) = built info q in
          let (m', r, has, keeps) = outcome txids infos (add_to_transactions t m) found h.1 in
          let here : Has (add_to_transactions t m) (reverse info.txid) =
            ground (arith, is_some-lookup-add (reverse info.txid) t m, beq_refl t.txid) in
          rw q (
            m',
            run_report txid txids infos m m' info t _ h.0 s b r,
            (keeps (reverse info.txid) here, has),
            λ k p. keeps k (Keeps-add lib utxos addresses t m k p),
          )
      | inr q ↦
          let (m', r, has, keeps) = outcome txids infos m found h.1 in
          rw q (m', run_skip txid txids infos m info h.0 q ∙ r, has, keeps)
    ]

  both :
      (block : TxData) (template_txids only_in_block : List Txid)
      (template_infos : List (Txid × TxInfo)) (m m₁ m₂ : Transactions)
      (rows₁ rows₂ : List SanctionedTransactionInfo)
      → run (λ txid. contains txid block.txids) true template_txids template_infos m
        ≡ some (rows₁, m₁)
      → run (λ txid. true) false only_in_block block.txid_to_txinfo_map m₁ ≡ some (rows₂, m₂)
      → build_sanctioned_transaction_infos lib utxos addresses block_id block template_txids
          template_infos only_in_block m
        ≡ some (rows₁ ++ rows₂, m₂)
  unfolding build_sanctioned_transaction_infos
  both block template_txids only_in_block template_infos m m₁ m₂ rows₁ rows₂ r₁ r₂ = ground arith

  -- The rows are those of the sanctioned transactions of the template, then of those that only the
  -- block has, in the order of the sets, as far as their transactions can be built: each says
  -- truly where the transaction is, names its sanctioned addresses, and refers to a transaction
  -- that is in the map afterwards. There is no panic if all txids are in their maps.
  pub build_sanctioned_transaction_infos-Has :
      (block : TxData) (template_txids only_in_block : List Txid)
      (template_infos : List (Txid × TxInfo)) (m : Transactions)
      (in_template in_block : List TxInfo)
      → Found template_txids template_infos in_template
      → Found only_in_block block.txid_to_txinfo_map in_block
      → (m' : Transactions) × (build_sanctioned_transaction_infos lib utxos addresses block_id block
            template_txids template_infos only_in_block m
          ≡ some (
            map
                  (sanctioned_row (λ txid. contains txid block.txids) true)
                  (filter is_reported in_template)
                ++ map (sanctioned_row (λ txid. true) false) (filter is_reported in_block),
            m',
          ))
        × All
            (λ info. Has m' (reverse info.txid))
            (filter is_reported in_template ++ filter is_reported in_block)
        × Keeps m m'
  unfolding build_sanctioned_transaction_infos
  build_sanctioned_transaction_infos-Has block template_txids only_in_block template_infos m
        in_template in_block h k =
      let (m₁, r₁, has₁, keeps₁) =
        outcome (λ txid. contains txid block.txids) true template_txids template_infos m in_template
          h in
      let (m₂, r₂, has₂, keeps₂) =
        outcome (λ txid. true) false only_in_block block.txid_to_txinfo_map m₁ in_block k in
      (
        m₂,
        both block template_txids only_in_block template_infos m m₁ m₂ _ _ r₁ r₂,
        All-append (λ info. Has m₂ (reverse info.txid)) (filter is_reported in_template) _
            (All-mono (λ info. Has m₁ (reverse info.txid)) (λ info. Has m₂ (reverse info.txid))
              (filter is_reported in_template) (λ info. keeps₂ (reverse info.txid)) has₁)
            has₂,
        λ k p. keeps₂ k (keeps₁ k p),
      )
