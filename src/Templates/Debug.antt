-- ===== src/Templates/Debug.antt =====
-- How the selection shows in the rows of `build_debug_template_selection_infos`.
use miningpool_observer.Prelude.{
  ◌≡◌, refl, sym, ap, All, All-mono, any-map, ◌∙◌, ℕ, Bool, true, inl, inr, Option, some, List, [],
  ◌∷◌, map, any, eqb, Option-cases, ℤ, arith,
}
use miningpool_observer.Bitcoin.{Txid, GetBlockTemplateResult, Libraries}
use miningpool_observer.Templates.{
  select_best_template_for_block, DebugTemplateSelectionInfo, build_debug_template_selection_infos,
}
use miningpool_observer.Templates.Best.{select_best_template_for_block-All}

members {ℓ} : {A : Type ℓ} (p : A → Bool) (xs : List A) → All (λ x. p x ≡ true → any p xs ≡ true) xs
members p [] = tt
members p (x ∷ xs) = (
  λ h. ground arith,
  All-mono (λ y. p y ≡ true → any p xs ≡ true) (λ y. p y ≡ true → any p (x ∷ xs) ≡ true) xs
      (λ y f h. ground (arith, f h)) (members p xs),
)

module _ (lib : Libraries) where
  open lib use {NaiveDateTime, from_timestamp}

  abbrev debug_rows :
      ℤ
      → List GetBlockTemplateResult
      → List Txid
      → ℕ
      → Option (List (DebugTemplateSelectionInfo NaiveDateTime))
  debug_rows block_id ts block_txids time =
      build_debug_template_selection_infos lib block_id ts block_txids time

  marks :
      (block_id : ℤ) (ts : List GetBlockTemplateResult) (block_txids : List Txid) (time : ℕ)
      (rows : List (DebugTemplateSelectionInfo NaiveDateTime))
      → debug_rows block_id ts block_txids time ≡ some rows
      → map (λ r. r.selected) rows ≡ map (λ t. eqb t.current_time time) ts
  unfolding build_debug_template_selection_infos
  marks block_id [] block_txids time [] h = refl
  marks block_id [] block_txids time (r ∷ rows) h = absurd (ground arith)
  marks block_id (t ∷ ts) block_txids time rows h =
      elim (Option-cases (from_timestamp t.current_time)) [
        | inl e ↦ absurd (ground arith)
        | inr (n, e) ↦ elim (Option-cases (debug_rows block_id ts block_txids time)) [
          | inl q ↦ absurd (ground arith)
          | inr (rest, q) ↦ ground (arith, marks block_id ts block_txids time rest q)
        ]
      ]

  -- The selected template shows in the rows: there is one row for each template, in order, a row is
  -- marked exactly if its template has the time of the selected one, and some row is marked.
  pub debug_infos-select_best :
      (block_id : ℤ) (ts : List GetBlockTemplateResult) (block_txids : List Txid)
      (best : GetBlockTemplateResult) (rows : List (DebugTemplateSelectionInfo NaiveDateTime))
      → select_best_template_for_block ts block_txids ≡ some best
      → build_debug_template_selection_infos lib block_id ts block_txids best.current_time
        ≡ some rows
      → (map (λ r. r.selected) rows ≡ map (λ t. eqb t.current_time best.current_time) ts)
        × (any (λ r. r.selected) rows ≡ true)
  debug_infos-select_best block_id ts block_txids best rows s h =
      let same = marks block_id ts block_txids best.current_time rows h in
      let has_time = λ (t : GetBlockTemplateResult). eqb t.current_time best.current_time in
      let found : any has_time ts ≡ true =
        select_best_template_for_block-All (λ t. has_time t ≡ true → any has_time ts ≡ true) ts
          block_txids best s (members has_time ts) (ground arith) in
      (
        same,
        sym (any-map (λ b. b) (λ r. r.selected) rows)
            ∙ ap (any (λ b. b)) same
            ∙ any-map (λ b. b) has_time ts
            ∙ found,
      )
