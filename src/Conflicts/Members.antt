-- ===== src/Conflicts/Members.antt =====
-- What holds of all transactions of the template and of the block holds of the members of the
-- conflicts.
use mathlib.Core.Path.{subst}
use miningpool_observer.Prelude.{
  ◌≡◌, refl, sym, inl, inr, some, List, [], ◌∷◌, map, All, All-append, All-mono, filter-All,
  map-All, All-map, flat_map-All, sort_by_key-All, dedup_by_key-All, flat_map, sort_by_key,
  dedup_by_key, contains, lookup, lookup-insert, ◌==◌, list_eq, nat_eq, Bool-cases, Option-cases,
  arith,
}
use miningpool_observer.Bitcoin.{Txid, OutPoint, TxIn, Libraries, outpoint_eq}
use miningpool_observer.Model.{TxInfo, txinfo_eq}
use miningpool_observer.Transactions.References.{Found}
use miningpool_observer.Conflicts.{
  Spent, spend_inputs, spent_by, Conflict, Marked, mark_existing, referenced_conflicts, push_new,
  emptied, replace_referenced, merge_conflicts, update_conflicts, add_outpoint, group_outpoints,
}
use miningpool_observer.Conflicts.Coverage.{
  old, updated, fresh, updated_none, updated_one, updated_many,
}
use miningpool_observer.Conflicts.Marks.{conflicts-mark_existing, extend_marked}

module _ {κ} (P : TxInfo → Type κ) where
  -- Every transaction that the map leads to meets `P`.
  abbrev pub Spenders : List (OutPoint × TxInfo) → Type κ
  Spenders m = (o : OutPoint) (t : TxInfo) → lookup o m ≡ some t → P t

  pub no-Spenders : Spenders []
  no-Spenders o t e = absurd (ground arith)

  spend_inputs-Spenders :
      (info : TxInfo) (is : List TxIn) (s : Spent)
      → P info
      → Spenders s.outpoints_to_txinfo
      → Spenders (spend_inputs info is s).outpoints_to_txinfo
  unfolding spend_inputs
  spend_inputs-Spenders info [] s h k = k
  spend_inputs-Spenders info (i ∷ is) s h k = spend_inputs-Spenders info is _ h (λ o t e.
      elim (Bool-cases (o == i.previous_output)) [
        | inl q ↦
            let f = lookup-insert i.previous_output o info s.outpoints_to_txinfo in
            subst P (ground (arith, f)) h
        | inr q ↦
            let f = lookup-insert i.previous_output o info s.outpoints_to_txinfo in
            k o t (ground (arith, f))
      ])

  pub spent_by-Spenders :
      (txids : List Txid) (infos : List (Txid × TxInfo)) (found : List TxInfo) (s s' : Spent)
      → Found txids infos found
      → All P found
      → Spenders s.outpoints_to_txinfo
      → spent_by txids infos s ≡ some s'
      → Spenders s'.outpoints_to_txinfo
  unfolding spent_by
  spent_by-Spenders [] infos [] s s' f h k e =
      let same : s ≡ s' = ground arith in
      subst (λ (r : Spent). Spenders r.outpoints_to_txinfo) same k
  spent_by-Spenders [] infos (i ∷ is) s s' f h k e = absurd f
  spent_by-Spenders (txid ∷ txids) infos [] s s' f h k e = absurd f
  spent_by-Spenders (txid ∷ txids) infos (info ∷ found) s s' f h k e =
      spent_by-Spenders txids infos found (spend_inputs info info.tx.input s) s' f.1 h.1
        (spend_inputs-Spenders info info.tx.input s h.0 k) (ground arith)

  -- Every transaction of the conflict meets `P`.
  abbrev pub MembersOf : Conflict → Type κ
  MembersOf c = All P c.template_transactions × All P c.block_transactions

  push_new-All : (t : TxInfo) (ts : List TxInfo) → P t → All P ts → All P (push_new t ts)
  push_new-All t ts h k = elim (Bool-cases (contains t ts)) [
    | inl q ↦ rw q k
    | inr q ↦ rw q (All-append P ts (t ∷ []) k (h, tt))
  ]

  abbrev Marks : List Marked → Type κ
  Marks = All (λ m. MembersOf m.conflict)

  referenced_of : (ms : List Marked) → Marks ms → All MembersOf (referenced_conflicts ms)
  referenced_of [] h = tt
  referenced_of (m ∷ ms) h = elim (Bool-cases m.referenced) [
    | inl q ↦ rw q (h.0, referenced_of ms h.1)
    | inr q ↦ rw q (referenced_of ms h.1)
  ]

  extend-Members :
      (t b : TxInfo) (co : OutPoint) (ms : List Marked)
      → P t
      → P b
      → Marks ms
      → All MembersOf (map (extend_marked t b co) ms)
  extend-Members t b co [] h k l = tt
  extend-Members t b co (m ∷ ms) h k l =
      let rest = extend-Members t b co ms h k l.1 in
      elim (Bool-cases m.referenced) [
        | inl q ↦ rw q (
          (
            push_new-All t m.conflict.template_transactions h l.0.0,
            push_new-All b m.conflict.block_transactions k l.0.1,
          ),
          rest,
        )
        | inr q ↦ rw q (l.0, rest)
      ]

  replace_referenced-Members :
      (merged : Conflict) (ms : List Marked)
      → MembersOf merged
      → Marks ms
      → All MembersOf (replace_referenced merged ms)
  unfolding replace_referenced
  replace_referenced-Members merged [] h l = tt
  replace_referenced-Members merged (m ∷ ms) h l = elim (Bool-cases m.referenced) [
    | inl q ↦ rw (q, replace_referenced) (h, replace_referenced-Members emptied ms (tt, tt) l.1)
    | inr q ↦ rw (q, replace_referenced) (l.0, replace_referenced-Members merged ms h l.1)
  ]

  module _ (lib : Libraries) where
    open lib use {bytes_order, outpoint_order}

    merge_conflicts-Members :
        (t b : TxInfo) (co : OutPoint) (cs : List Conflict)
        → P t
        → P b
        → All MembersOf cs
        → MembersOf (merge_conflicts lib t b co cs)
    unfolding merge_conflicts
    merge_conflicts-Members t b co cs h k l = (
      tidy (t ∷ flat_map (λ c. c.template_transactions) cs) (
        h,
        flat_map-All P (λ c. c.template_transactions) cs
            (All-mono MembersOf (λ c. All P c.template_transactions) cs (λ c p. p.0) l),
      ),
      tidy (b ∷ flat_map (λ c. c.block_transactions) cs) (
        k,
        flat_map-All P (λ c. c.block_transactions) cs
            (All-mono MembersOf (λ c. All P c.block_transactions) cs (λ c p. p.1) l),
      ),
    )
      where
        tidy :
            (ts : List TxInfo)
            → All P ts
            → All P (dedup_by_key (λ u. u.txid) (sort_by_key ⦃o = bytes_order⦄ (λ u. u.txid) ts))
        tidy ts a =
            dedup_by_key-All (λ u. u.txid) P _
              (sort_by_key-All ⦃o = bytes_order⦄ (λ u. u.txid) P ts a)

    module _ (t b : TxInfo) (co : OutPoint) (h : P t) (k : P b) where
      update_conflicts-Members :
          (ms : List Marked) → Marks ms → All MembersOf (updated lib t b co ms)
      update_conflicts-Members ms m = go (referenced_conflicts ms) refl (referenced_of ms m)
        where
          becomes :
              (cs : List Conflict)
              → updated lib t b co ms ≡ cs
              → All MembersOf cs
              → All MembersOf (updated lib t b co ms)
          becomes cs e = subst (All MembersOf) (sym e)

          go :
              (r : List Conflict)
              → referenced_conflicts ms ≡ r
              → All MembersOf r
              → All MembersOf (updated lib t b co ms)
          go [] e l = becomes _ (updated_none lib t b co ms e) (
              All-append MembersOf (old lib t b co ms) (fresh lib t b co ms ∷ [])
                (map-All MembersOf (λ m. m.conflict) ms m) (((h, tt), (k, tt)), tt))
          go (c ∷ []) e l =
              becomes _ (updated_one lib t b co ms c e) (extend-Members t b co ms h k m)
          go (c ∷ d ∷ cs) e l = becomes _ (updated_many lib t b co ms c d cs e) (
              replace_referenced-Members (merge_conflicts lib t b co (c ∷ d ∷ cs)) ms
                (merge_conflicts-Members t b co (c ∷ d ∷ cs) h k l) m)

      add_outpoint-Members :
          (cs : List Conflict) → All MembersOf cs → All MembersOf (add_outpoint lib t b co cs)
      unfolding add_outpoint
      add_outpoint-Members cs l =
          let ms = mark_existing t b [] cs in
          let same = conflicts-mark_existing t b cs [] in
          let m = All-map MembersOf (λ m. m.conflict) ms (subst (All MembersOf) (sym same) l) in
          filter-All MembersOf _ (update_conflicts lib t b co cs ms) (
            subst (λ l. All MembersOf (update_conflicts lib t b co l ms)) same
              (update_conflicts-Members ms m))

    -- The conflicts have no other transactions than those that spend the outpoints.
    pub group_outpoints-Members :
        (template block : List (OutPoint × TxInfo)) (cos : List OutPoint) (cs cs' : List Conflict)
        → Spenders template
        → Spenders block
        → All MembersOf cs
        → group_outpoints lib template block cos cs ≡ some cs'
        → All MembersOf cs'
    unfolding group_outpoints
    group_outpoints-Members template block [] cs cs' f g l r =
        subst (All MembersOf) (ground arith) l
    group_outpoints-Members template block (co ∷ cos) cs cs' f g l r =
        elim (Option-cases (lookup co template)) [
          | inl e ↦ absurd (ground arith)
          | inr (t, e) ↦ elim (Option-cases (lookup co block)) [
            | inl q ↦ absurd (ground arith)
            | inr (b, q) ↦
                group_outpoints-Members template block cos (add_outpoint lib t b co cs) cs' f g
                  (add_outpoint-Members t b co (f co t e) (g co b q) cs l) (ground arith)
          ]
        ]
