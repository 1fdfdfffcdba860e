-- ===== src/MempoolAges/Ages.antt =====
-- The ages, and how they come into the rows.
use miningpool_observer.Prelude.{
  ℕ, ◌-◌, ◌^◌, ◌≤◌, ◌<◌, ◌≡◌, refl, inl, inr, Option, none, some, List, [], ◌∷◌, contains, lookup,
  lookup-insert, insert, ◌==◌, beq→eq, ℤ, pos, negsuc, as_i32, if◌then◌else◌, list_eq, nat_eq,
  Bool-cases, Option-cases, arith,
}
use miningpool_observer.Bitcoin.{Txid}
use miningpool_observer.MempoolAges.{age_of, seconds_of, add_ages, mempool_age_seconds}

age_of-pos :
    (now time : ℕ)
    → time ≤ now
    → now - time < 2 ^ 31
    → time < 2 ^ 64
    → age_of now time ≡ pos (now - time)
unfolding age_of as_i32
age_of-pos now time h k l = ground arith

lookup-add_ages :
    (get : Txid → Option ℕ) (now : ℕ) (txids : List Txid) (ages : List (Txid × ℤ)) (txid : Txid)
    → lookup txid (add_ages get now txids ages)
      ≡ (if contains txid txids then some (seconds_of get now txid) else lookup txid ages)
unfolding add_ages
lookup-add_ages get now [] ages txid = refl
lookup-add_ages get now (t ∷ ts) ages txid =
    let rest = lookup-add_ages get now ts (insert t (seconds_of get now t) ages) txid in
    let here = lookup-insert t txid (seconds_of get now t) ages in
    elim (Bool-cases (txid == t)) [
      | inl q ↦ elim (Bool-cases (contains txid ts)) [
        | inl k ↦ ground (arith, rest)
        | inr k ↦ ground (arith, rest, here, beq→eq txid t q)
      ]
      | inr q ↦ ground (arith, rest, here)
    ]

-- The age that a transaction has in the mempool, -1 if it is not there.
abbrev pub true_age : Option ℕ → ℕ → ℤ
true_age none now = negsuc 0
true_age (some time) now = pos (now - time)

-- If no entry is from the future or older than 2^31 seconds, the map has an age for exactly the
-- requested transactions: the seconds since a transaction entered the mempool, without loss by the
-- two casts, or -1 where the node has no entry.
pub lookup-mempool_age_seconds :
    (get : Txid → Option ℕ) (now : ℕ) (txids : List Txid) (txid : Txid)
    → ((time : ℕ) → get txid ≡ some time → (time ≤ now) × (now - time < 2 ^ 31) × (time < 2 ^ 64))
    → lookup txid (mempool_age_seconds get now txids)
      ≡ (if contains txid txids then some (true_age (get txid) now) else none)
unfolding mempool_age_seconds
lookup-mempool_age_seconds get now txids txid h = elim (Option-cases (get txid)) [
  | inl e ↦ ground (arith, lookup-add_ages get now txids [] txid)
  | inr (time, e) ↦
      let (past, young, small) = h time e in
      ground (arith, lookup-add_ages get now txids [] txid, age_of-pos now time past young small)
]
