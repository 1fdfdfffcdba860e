-- ===== src/Web/Sanctioned/Joined.antt =====
-- How often a sanctioned transaction is listed on the page of a block that is missing it.
use miningpool_observer.Prelude.{
  ◌≡◌, refl, ap, ◌∙◌, ℕ, suc, ◌+◌, List, [], ◌∷◌, map, filter, flat_map, length, length-append,
  sum_by, ℤ, ◌==◌, list_eq, nat_eq, arith,
}
use miningpool_observer.Model.{Transaction, TransactionOnlyInTemplate}
use miningpool_observer.Web.{Tables}
use miningpool_observer.Web.Sanctioned.{missing_rows, missing_infos, missing_sanctioned_of}

length-map : {A B : Type 0} (f : A → B) (xs : List A) → length (map f xs) ≡ length xs
length-map f [] = refl
length-map f (x ∷ xs) = ap suc (length-map f xs)

length-flat_map :
    {A B : Type 0} (f : A → List B) (xs : List A)
    → length (flat_map f xs) ≡ sum_by (λ x. length (f x)) xs
length-flat_map f [] = refl
length-flat_map f (x ∷ xs) =
    length-append (f x) (flat_map f xs) ∙ ap (λ n. length (f x) + n) (length-flat_map f xs)

sum_ext :
    {A : Type 0} (f g : A → ℕ) (xs : List A) → ((x : A) → f x ≡ g x) → sum_by f xs ≡ sum_by g xs
sum_ext f g [] h = refl
sum_ext f g (x ∷ xs) h = omega (arith, h x, sum_ext f g xs h)

-- The rows of the transaction for all blocks.
abbrev pub template_rows_of :
    {F32 Time : Type 0} → Tables F32 Time → Transaction → List TransactionOnlyInTemplate
template_rows_of db tx = filter (λ r. r.transaction_txid == tx.txid) db.only_in_template

-- A sanctioned transaction that a block is missing is listed on the page of the block once for every
-- block that it was ever missing from: the join with the template rows is on the txid alone, so that
-- the rows of the other blocks come in too.
length-missing_sanctioned_of :
    {F32 Time : Type 0} (db : Tables F32 Time) (block_id : ℤ)
    → length (missing_sanctioned_of db block_id)
      ≡ sum_by
          (λ tx.
            sum_by
              (λ i. length (filter (λ r. r.transaction_txid == tx.txid) db.only_in_template))
              (missing_infos db.sanctioned block_id tx))
          db.transactions
unfolding missing_sanctioned_of
length-missing_sanctioned_of db block_id =
    length-flat_map _ db.transactions
    ∙ sum_ext _ _ db.transactions (λ tx.
      length-flat_map (missing_rows db.only_in_template tx)
        (missing_infos db.sanctioned block_id tx)
      ∙ sum_ext _ _ (missing_infos db.sanctioned block_id tx)
          (λ i. length-map _ (template_rows_of db tx)))
