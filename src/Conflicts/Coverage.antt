-- ===== src/Conflicts/Coverage.antt =====
-- Which outpoints the conflicts of `build_conflicting_transactions` hold.
use mathlib.Core.Path.{subst}
use miningpool_observer.Prelude.{
  ◌≡◌, refl, sym, ap, ◌∙◌, Bool, true, false, not, ◌||◌, inl, inr, some, List, [], ◌∷◌, ◌++◌, map,
  All-append, contains, any-append, flat_map, contains-dedup-sort, any-sort_by_key,
  any-dedup_by_key, is_empty, sort_by_key, dedup_by_key, lookup, ◌==◌, list_eq, nat_eq,
  Option-cases, arith,
}
use miningpool_observer.Bitcoin.{OutPoint, Libraries, outpoint_eq}
use miningpool_observer.Model.{TxInfo, txinfo_eq}
use miningpool_observer.Conflicts.{
  Conflict, conflict_eq, Marked, mark_existing, referenced_conflicts, replace_referenced,
  merge_conflicts, update_conflicts, add_outpoint, group_outpoints,
}
use miningpool_observer.Conflicts.Marks.{
  held, solid, Solid, held-filter, filter-Solid, any-flat_map, is_empty-any,
  conflicts-mark_existing, held_split, any_referenced-filter, held-replace_referenced,
  replace_referenced-Solid, extend_marked, held-extend, extend-Solid,
}

module _ (lib : Libraries) where
  open lib use {bytes_order, outpoint_order}

  contains-merge_conflicts :
      (o : OutPoint) (t b : TxInfo) (co : OutPoint) (cs : List Conflict)
      → contains o (merge_conflicts lib t b co cs).conflicting_outpoints ≡ (o == co) || held o cs
  unfolding merge_conflicts
  contains-merge_conflicts o t b co cs =
      contains-dedup-sort ⦃o = outpoint_order⦄ o (co ∷ flat_map (λ c. c.conflicting_outpoints) cs)
      ∙ ap (λ r. (o == co) || r) (any-flat_map (λ x. o == x) (λ c. c.conflicting_outpoints) cs)

  filled-merge_conflicts :
      (t b : TxInfo) (co : OutPoint) (cs : List Conflict)
      → is_empty (merge_conflicts lib t b co cs).template_transactions ≡ false
  unfolding merge_conflicts
  filled-merge_conflicts t b co cs =
      let ts = t ∷ flat_map (λ c. c.template_transactions) cs in
      let sorted = sort_by_key ⦃o = bytes_order⦄ (λ u. u.txid) ts in
      is_empty-any (dedup_by_key (λ u. u.txid) sorted)
      ∙ ap not (any-dedup_by_key (λ u. u.txid) (λ u. true) (λ x y h. refl) sorted)
      ∙ ap not (any-sort_by_key ⦃o = bytes_order⦄ (λ u. u.txid) (λ u. true) ts)

  -- These conflicts hold the outpoint and what the old ones hold.
  abbrev Holding : OutPoint → List Conflict → List Conflict → Type 0
  Holding co cs cs' = ((o : OutPoint) → held o cs' ≡ (o == co) || held o cs) × Solid cs'

  module _ (t b : TxInfo) (co : OutPoint) (ms : List Marked) where
    abbrev pub old : List Conflict
    old = map (λ m. m.conflict) ms

    abbrev pub updated : List Conflict
    updated = update_conflicts lib t b co old ms

    abbrev pub fresh : Conflict
    fresh = record {
      template_transactions = t ∷ [];
      block_transactions = b ∷ [];
      conflicting_outpoints = co ∷ [];
    }

    pub updated_none : referenced_conflicts ms ≡ [] → updated ≡ old ++ fresh ∷ []
    unfolding update_conflicts
    updated_none e = ground arith

    pub updated_one :
        (c : Conflict) → referenced_conflicts ms ≡ c ∷ [] → updated ≡ map (extend_marked t b co) ms
    unfolding update_conflicts
    updated_one c e = rw (e, update_conflicts) refl

    pub updated_many :
        (c d : Conflict) (cs : List Conflict)
        → referenced_conflicts ms ≡ c ∷ d ∷ cs
        → updated ≡ replace_referenced (merge_conflicts lib t b co (c ∷ d ∷ cs)) ms
    unfolding update_conflicts
    updated_many c d cs e = cc

    update_conflicts-Holding : Solid old → Holding co old updated
    update_conflicts-Holding h = go (referenced_conflicts ms) refl
      where
        becomes : (cs : List Conflict) → updated ≡ cs → Holding co old cs → Holding co old updated
        becomes cs e = subst (Holding co old) (sym e)

        go : (r : List Conflict) → referenced_conflicts ms ≡ r → Holding co old updated
        go [] e = becomes (old ++ fresh ∷ []) (updated_none e) (
          λ o.
              ground (arith, any-append (λ c. contains o c.conflicting_outpoints) old (fresh ∷ [])),
          All-append (λ c. solid c ≡ true) old (fresh ∷ []) h (refl, tt),
        )
        go (c ∷ []) e = becomes (map (extend_marked t b co) ms) (updated_one c e) (
          λ o. ground (arith, held-extend o t b co ms, any_referenced-filter ms, ap is_empty e),
          extend-Solid t b co ms h,
        )
        go (c ∷ d ∷ cs) e =
            let merged = merge_conflicts lib t b co (c ∷ d ∷ cs) in
            becomes (replace_referenced merged ms) (updated_many c d cs e) (
              λ o. ground (
                arith,
                held-replace_referenced o merged ms,
                contains-merge_conflicts o t b co (c ∷ d ∷ cs),
                held_split o ms,
                any_referenced-filter ms,
                ap is_empty e,
                ap (held o) e,
              ),
              replace_referenced-Solid merged ms
                  (ground (arith, filled-merge_conflicts t b co (c ∷ d ∷ cs))) h,
            )

  add_outpoint-Holding :
      (t b : TxInfo) (co : OutPoint) (cs : List Conflict)
      → Solid cs
      → Holding co cs (add_outpoint lib t b co cs)
  unfolding add_outpoint
  add_outpoint-Holding t b co cs h =
      let ms = mark_existing t b [] cs in
      let same = conflicts-mark_existing t b cs [] in
      let (holds, solid_updated) =
        subst (λ l. Holding co l (update_conflicts lib t b co l ms)) same
          (update_conflicts-Holding t b co ms (subst Solid (sym same) h)) in
      (
        λ o. held-filter o (update_conflicts lib t b co cs ms) solid_updated ∙ holds o,
        filter-Solid (update_conflicts lib t b co cs ms) solid_updated,
      )

  group_outpoints-held :
      (template block : List (OutPoint × TxInfo)) (cos : List OutPoint) (cs cs' : List Conflict)
      → Solid cs
      → group_outpoints lib template block cos cs ≡ some cs'
      → (o : OutPoint) → held o cs' ≡ contains o cos || held o cs
  unfolding group_outpoints
  group_outpoints-held template block [] cs cs' h r o = ground arith
  group_outpoints-held template block (co ∷ cos) cs cs' h r o =
      elim (Option-cases (lookup co template)) [
        | inl e ↦ absurd (ground arith)
        | inr (t, e) ↦ elim (Option-cases (lookup co block)) [
          | inl q ↦ absurd (ground arith)
          | inr (b, q) ↦
              let (holds, solid_next) = add_outpoint-Holding t b co cs h in
              ground (
                arith,
                group_outpoints-held template block cos (add_outpoint lib t b co cs) cs' solid_next
                    (ground arith) o,
                holds o,
              )
        ]
      ]

  -- When the outpoints are grouped, one of the conflicts holds an outpoint exactly if it is one of
  -- the conflicting outpoints: none gets lost when conflicts are merged, and none is made up.
  pub group_outpoints-covers :
      (template block : List (OutPoint × TxInfo)) (cos : List OutPoint) (cs : List Conflict)
      (o : OutPoint)
      → group_outpoints lib template block cos [] ≡ some cs
      → held o cs ≡ contains o cos
  group_outpoints-covers template block cos cs o r =
      group_outpoints-held template block cos [] cs tt r o ∙ or_none (contains o cos)
    where
      or_none : (b : Bool) → (b || false) ≡ b
      or_none b = ground arith
