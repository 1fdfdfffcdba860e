-- ===== src/TxSets/Index.antt =====
-- What `build_block_tx_data` and `build_template_tx_data` build: the set of txids, the map from
-- txids to infos and the list of infos.
use mathlib.Core.Path.{subst}
use mathlib.Core.List.{append_assoc, map-append, append-nil}
use miningpool_observer.Prelude.{
  ◌≡◌, refl, sym, ap, ◌∙◌, ℕ, suc, true, ◌||◌, inl, inr, some, List, [], ◌∷◌, ◌++◌, map, All,
  contains, contains-set_insert, contains-difference, Distinct, difference, set_insert-Distinct,
  lookup, lookup-insert, to_map, is_some, is_some-to_map, ◌==◌, beq→eq, beq_refl, keys,
  if◌then◌else◌, list_eq, nat_eq, Bool-cases, Option-cases, arith, as_i32,
}
use miningpool_observer.Bitcoin.{
  Txid, Tx, BitcoinBlock, TemplateTransaction, GetBlockTemplateResult, TxFee, Libraries,
}
use miningpool_observer.Model.{TxInfo, TxData}
use miningpool_observer.TxSets.{
  no_tx_data, add_info, block_infos, build_block_tx_data, template_infos, build_template_tx_data,
}
use miningpool_observer.Transactions.References.{Found}

-- Each txid of the set leads to an info with this txid.
abbrev pub Indexed : TxData → Type 0
Indexed td =
    (txid : Txid)
    → contains txid td.txids ≡ true
    → (info : TxInfo) × (lookup txid td.txid_to_txinfo_map ≡ some info) × (info.txid ≡ txid)

-- The data after transactions with these txids were added, in this order.
abbrev pub Grown : List Txid → TxData → TxData → Type 0
Grown added td td' =
    (Indexed td → Indexed td')
    × (Distinct td.txids → Distinct td'.txids)
    × ((a : Txid) → contains a td'.txids ≡ contains a added || contains a td.txids)
    × (map (λ i. i.txid) td'.txinfos ≡ map (λ i. i.txid) td.txinfos ++ added)

add_info-Indexed :
    (txid : Txid) (info : TxInfo) (td : TxData)
    → info.txid ≡ txid
    → Indexed td
    → Indexed (add_info txid txid info td)
add_info-Indexed txid info td e h a k = elim (Bool-cases (a == txid)) [
  | inl q ↦ (
    info,
    ground (arith, lookup-insert txid a info td.txid_to_txinfo_map),
    e ∙ sym (beq→eq a txid q),
  )
  | inr q ↦
      let (i, l, p) = h a (ground (arith, contains-set_insert a txid td.txids)) in
      (i, ground (arith, lookup-insert txid a info td.txid_to_txinfo_map), p)
]

Grown-cast :
    (added added' : List Txid) (td after after' : TxData)
    → added' ≡ added
    → after' ≡ after
    → Grown added td after
    → Grown added' td after'
Grown-cast added added' td after after' e f g =
    subst (λ a. Grown a td after') (sym e) (subst (Grown added td) (sym f) g)

Grown-nil : (td : TxData) → Grown [] td td
Grown-nil td = (λ h. h, λ h. h, λ a. refl, sym (append-nil (map (λ i. i.txid) td.txinfos)))

Grown-cons :
    (txid : Txid) (info : TxInfo) (txids : List Txid) (td td' : TxData)
    → info.txid ≡ txid
    → Grown txids (add_info txid txid info td) td'
    → Grown (txid ∷ txids) td td'
Grown-cons txid info txids td td' e (indexed, distinct, has, listed) = (
  λ h. indexed (add_info-Indexed txid info td e h),
  λ h. distinct (set_insert-Distinct txid td.txids h),
  λ a. ground (arith, has a, contains-set_insert a txid td.txids),
  listed
      ∙ ap (λ l. l ++ txids) (map-append (λ i. i.txid) td.txinfos (info ∷ []))
      ∙ append_assoc (map (λ i. i.txid) td.txinfos) (info.txid ∷ []) txids
      ∙ ap (λ t. map (λ i. i.txid) td.txinfos ++ t ∷ txids) e,
)

-- From nothing, the three agree.
abbrev pub Agrees : List Txid → TxData → Type 0
Agrees txids td =
    Indexed td
    × Distinct td.txids
    × ((a : Txid) → contains a td.txids ≡ contains a txids)
    × (map (λ i. i.txid) td.txinfos ≡ txids)

Grown-Agrees : (txids : List Txid) (td : TxData) → Grown txids no_tx_data td → Agrees txids td
Grown-Agrees txids td (indexed, distinct, has, listed) =
    (indexed (λ a h. absurd (ground arith)), distinct tt, λ a. ground (arith, has a), listed)

pub Found-of :
    (txids : List Txid) (infos : List (Txid × TxInfo))
    → ((a : Txid)
        → contains a txids ≡ true
        → (info : TxInfo) × (lookup a infos ≡ some info) × (info.txid ≡ a))
    → (found : List TxInfo) × Found txids infos found × (map (λ i. i.txid) found ≡ txids)
Found-of [] infos h = ([], tt, refl)
Found-of (txid ∷ txids) infos h =
    let (info, l, e) = h txid (ground (arith, beq_refl txid)) in
    let (found, f, m) = Found-of txids infos (λ a k. h a (ground arith)) in
    (info ∷ found, (l, f), cc)

-- The infos of the txids that another set does not have are there, so that the loops over the
-- difference find each of them.
pub difference-Found :
    (td : TxData) (others : List Txid)
    → Indexed td
    → (found : List TxInfo) × Found (difference td.txids others) td.txid_to_txinfo_map found
      × (map (λ i. i.txid) found ≡ difference td.txids others)
difference-Found td others h =
    Found-of (difference td.txids others) td.txid_to_txinfo_map
      (λ a k. h a (ground (arith, contains-difference a td.txids others)))

module _ (lib : Libraries) where
  open lib use {compute_txid, template_transaction}

  abbrev pub block_txids : List Tx → List Txid
  block_txids txs = map compute_txid txs

  block_infos-Grown :
      (fees : List (Txid × ℕ)) (i : ℕ) (txs : List Tx) (td td' : TxData)
      → block_infos lib fees i txs td ≡ some td'
      → Grown (block_txids txs) td td'
  unfolding block_infos
  block_infos-Grown fees i [] td td' h = subst (Grown [] td) (ground arith) (Grown-nil td)
  block_infos-Grown fees i (tx ∷ txs) td td' h =
      elim (Option-cases (lookup (compute_txid tx) fees)) [
        | inl e ↦ absurd (ground arith)
        | inr (fee, e) ↦
            let info : TxInfo = record {
              txid = compute_txid tx;
              tx = tx;
              position = as_i32 i;
              fee = fee;
            } in
            let txid = compute_txid tx in
            Grown-cons txid info (block_txids txs) td td' refl
              (block_infos-Grown fees (suc i) txs (add_info txid txid info td) td' (ground arith))
      ]

  -- A block's data has the block's txids, each once, leads from each to an info with this txid,
  -- and lists the infos in the order of the block.
  pub build_block_tx_data-Agrees :
      (block : BitcoinBlock) (fees : List TxFee) (td : TxData)
      → build_block_tx_data lib block fees ≡ some td
      → Agrees (block_txids block.txdata) td
  unfolding build_block_tx_data
  build_block_tx_data-Agrees block fees td h =
      Grown-Agrees (block_txids block.txdata) td (
        block_infos-Grown (to_map (map (λ f. (f.txid, f.fee)) fees)) 0 block.txdata no_tx_data td h)

  block_infos-total :
      (fees : List (Txid × ℕ)) (i : ℕ) (txs : List Tx) (td : TxData)
      → All (λ tx. is_some (lookup (compute_txid tx) fees) ≡ true) txs
      → is_some (block_infos lib fees i txs td) ≡ true
  unfolding block_infos
  block_infos-total fees i [] td h = refl
  block_infos-total fees i (tx ∷ txs) td h = elim (Option-cases (lookup (compute_txid tx) fees)) [
    | inl e ↦ absurd (ground arith)
    | inr (fee, e) ↦
        let info : TxInfo = record {
          txid = compute_txid tx;
          tx = tx;
          position = as_i32 i;
          fee = fee;
        } in
        let txid = compute_txid tx in
        ground (arith, block_infos-total fees (suc i) txs (add_info txid txid info td) h.1)
  ]

  -- If the fee of every transaction of the block is known, the block's data is built.
  build_block_tx_data-total :
      (block : BitcoinBlock) (fees : List TxFee)
      → All (λ txid. contains txid (map (λ f. f.txid) fees) ≡ true) (block_txids block.txdata)
      → is_some (build_block_tx_data lib block fees) ≡ true
  unfolding build_block_tx_data
  build_block_tx_data-total block fees h =
      block_infos-total (to_map pairs) 0 block.txdata no_tx_data (known block.txdata h)
    where
      pairs : List (Txid × ℕ)
      pairs = map (λ f. (f.txid, f.fee)) fees

      same_keys : (fs : List TxFee) → keys (map (λ f. (f.txid, f.fee)) fs) ≡ map (λ f. f.txid) fs
      same_keys [] = refl
      same_keys (f ∷ fs) = ap (λ l. f.txid ∷ l) (same_keys fs)

      known :
          (txs : List Tx)
          → All (λ txid. contains txid (map (λ f. f.txid) fees) ≡ true) (block_txids txs)
          → All (λ tx. is_some (lookup (compute_txid tx) (to_map pairs)) ≡ true) txs
      known [] k = tt
      known (tx ∷ txs) k = (
        is_some-to_map (compute_txid tx) pairs
            ∙ ap (contains (compute_txid tx)) (same_keys fees)
            ∙ k.0,
        known txs k.1,
      )

  -- The txids of the template's transactions that can be deserialized.
  abbrev pub decoded_txids : List TemplateTransaction → List Txid
  decoded_txids [] = []
  decoded_txids (t ∷ ts) =
      let rest = decoded_txids ts in
      if is_some (template_transaction t) then t.txid ∷ rest else rest

  -- The node gives the txid of the transaction that it gives.
  abbrev pub HasItsTxid : TemplateTransaction → Type 0
  HasItsTxid t = (tx : Tx) → template_transaction t ≡ some tx → compute_txid tx ≡ t.txid

  template_infos-Grown :
      (i : ℕ) (ts : List TemplateTransaction) (td : TxData)
      → All HasItsTxid ts
      → Grown (decoded_txids ts) td (template_infos lib i ts td)
  unfolding template_infos
  template_infos-Grown i [] td h = Grown-nil td
  template_infos-Grown i (t ∷ ts) td h = elim (Option-cases (template_transaction t)) [
    | inl e ↦
        Grown-cast (decoded_txids ts) _ td (template_infos lib (suc i) ts td) _ (ground arith)
          (ground arith) (template_infos-Grown (suc i) ts td h.1)
    | inr (tx, e) ↦
        let info : TxInfo = record {
          txid = compute_txid tx;
          tx = tx;
          position = as_i32 i;
          fee = t.fee;
        } in
        let after_with = λ (k : Txid). template_infos lib (suc i) ts (add_info k t.txid info td) in
        let after = after_with t.txid in
        let same : template_infos lib i (t ∷ ts) td ≡ after_with (compute_txid tx) = ground arith in
        Grown-cast (t.txid ∷ decoded_txids ts) _ td after _ (ground arith)
          (same ∙ ap after_with (h.0 tx e))
          (Grown-cons t.txid info (decoded_txids ts) td after (h.0 tx e)
            (template_infos-Grown (suc i) ts (add_info t.txid t.txid info td) h.1))
  ]

  -- If the node gives each transaction its own txid, a template's data has the txids of the
  -- transactions that can be deserialized, each once, leads from each to an info with this txid,
  -- and lists the infos in the order of the template.
  pub build_template_tx_data-Agrees :
      (template : GetBlockTemplateResult)
      → All HasItsTxid template.transactions
      → Agrees (decoded_txids template.transactions) (build_template_tx_data lib template)
  unfolding build_template_tx_data
  build_template_tx_data-Agrees template h =
      Grown-Agrees (decoded_txids template.transactions)
        (template_infos lib 0 template.transactions no_tx_data)
        (template_infos-Grown 0 template.transactions no_tx_data h)
