-- ===== src/MempoolAges.antt =====
-- `mempool_age_seconds` of daemon/src/main.rs.
pub mod Ages
use miningpool_observer.Prelude.{
  ℕ, ◌+◌, ◌-◌, ◌%◌, ◌^◌, Option, none, some, List, [], ◌∷◌, insert, ℤ, negsuc, as_i32, list_eq,
  nat_eq,
}
use miningpool_observer.Bitcoin.{Txid}

-- `(now - entry.time as i64) as i32`: the low 32 bits of the difference.
unfoldable pub age_of : ℕ → ℕ → ℤ
age_of now time = as_i32 (now + (2 ^ 64 - time % 2 ^ 64))

-- The node's `get_mempool_entry`, by the time of the entry; -1 stands for a failed request.
abbrev pub seconds_of : (Txid → Option ℕ) → ℕ → Txid → ℤ
seconds_of get_mempool_entry now txid = elim (get_mempool_entry txid) [
  | none ↦ negsuc 0
  | some time ↦ age_of now time
]

-- The body of the loop.
unfoldable pub add_ages : (Txid → Option ℕ) → ℕ → List Txid → List (Txid × ℤ) → List (Txid × ℤ)
unfolding age_of
add_ages get_mempool_entry now [] ages = ages
add_ages get_mempool_entry now (txid ∷ txids) ages =
    add_ages get_mempool_entry now txids (insert txid (seconds_of get_mempool_entry now txid) ages)

unfoldable pub mempool_age_seconds : (Txid → Option ℕ) → ℕ → List Txid → List (Txid × ℤ)
unfolding add_ages
mempool_age_seconds get_mempool_entry now txids = add_ages get_mempool_entry now txids []
