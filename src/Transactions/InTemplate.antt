-- ===== src/Transactions/InTemplate.antt =====
-- The loop over the txids that only the template has, as `References` does it for the block's.
use miningpool_observer.Prelude.{
  ◌≡◌, refl, false, some, List, [], ◌∷◌, reverse, lookup, All, ℤ, negsuc, list_eq, nat_eq, arith,
}
use miningpool_observer.Bitcoin.{Text, Txid, Libraries}
use miningpool_observer.Model.{TxInfo, TransactionOnlyInTemplate}
use miningpool_observer.Sanctions.{UtxoMap}
use miningpool_observer.Tagging.{unwrap_or}
use miningpool_observer.Transactions.{Transactions, add_built, build_transactions_only_in_template}
use miningpool_observer.Transactions.References.{
  Has, Keeps, Found, IsBuildable, Has-add_built, Keeps-add_built,
}

module _ (lib : Libraries) (utxos : UtxoMap) (addresses : List Text) (block_id : ℤ)
    (ages : List (Txid × ℤ)) where
  abbrev pub template_row : Txid → TxInfo → TransactionOnlyInTemplate
  template_row txid info = record {
    block_id = block_id;
    position = info.position;
    mempool_age_seconds = unwrap_or (negsuc 0) (lookup txid ages);
    transaction_txid = reverse info.txid;
  }

  -- One row for each txid and its info.
  abbrev pub template_rows : List Txid → List TxInfo → List TransactionOnlyInTemplate
  template_rows (txid ∷ txids) (info ∷ found) = template_row txid info ∷ template_rows txids found
  template_rows _ _ = []

  only_in_template-cons :
      (txid : Txid) (txids : List Txid) (infos : List (Txid × TxInfo)) (m m' : Transactions)
      (info : TxInfo) (rows : List TransactionOnlyInTemplate)
      → lookup txid infos ≡ some info
      → build_transactions_only_in_template lib utxos addresses block_id txids infos ages
          (add_built lib utxos addresses (reverse info.txid) info false m)
        ≡ some (rows, m')
      → build_transactions_only_in_template lib utxos addresses block_id (txid ∷ txids) infos ages m
        ≡ some (template_row txid info ∷ rows, m')
  unfolding build_transactions_only_in_template
  only_in_template-cons txid txids infos m m' info rows a r = ground arith

  -- If every txid of the set is in the map and every transaction can be built, then there is no
  -- panic, there is one row for each txid, with the position of its transaction and its age, -1
  -- where the age is not known, and each row's txid is in the map of transactions, which keeps all
  -- that it had.
  pub build_transactions_only_in_template-Has :
      (txids : List Txid) (infos : List (Txid × TxInfo)) (m : Transactions) (found : List TxInfo)
      → Found txids infos found
      → All (IsBuildable lib utxos addresses) found
      → (m' : Transactions) × (build_transactions_only_in_template lib utxos addresses block_id
            txids infos ages m
          ≡ some (template_rows txids found, m'))
        × All (λ info. Has m' (reverse info.txid)) found
        × Keeps m m'
  unfolding build_transactions_only_in_template
  build_transactions_only_in_template-Has [] infos m [] h b = (m, refl, tt, λ k p. p)
  build_transactions_only_in_template-Has [] infos m (i ∷ is) h b = absurd h
  build_transactions_only_in_template-Has (txid ∷ txids) infos m [] h b = absurd h
  build_transactions_only_in_template-Has (txid ∷ txids) infos m (info ∷ found) h b =
      let key = reverse info.txid in
      let added = add_built lib utxos addresses key info false m in
      let (m', run, has, keeps) =
        build_transactions_only_in_template-Has txids infos added found h.1 b.1 in
      (
        m',
        only_in_template-cons txid txids infos m m' info (template_rows txids found) h.0 run,
        (keeps key (Has-add_built lib utxos addresses key info false m b.0), has),
        λ k p. keeps k (Keeps-add_built lib utxos addresses key info false m k p),
      )
