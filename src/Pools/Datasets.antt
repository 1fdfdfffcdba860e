-- ===== src/Pools/Datasets.antt =====
-- Which data set the identification of pools works with.
use miningpool_observer.Prelude.{◌≡◌, refl, Option, List, [], ◌∷◌, last?, inl, inr, arith}
use miningpool_observer.Prelude.Outcomes.{returned, Outcome-cases}
use miningpool_observer.Bitcoin.{Text}
use miningpool_observer.Tagging.{unwrap_or}
use miningpool_observer.Addresses.{Response}
use miningpool_observer.Pools.{
  load_pool_identification_dataset, update_pools, start_pool_identification_update_thread,
}

module _ {Pool : Type 0} (parse_json : Text → Option (List Pool)) where
  -- The data sets that were loaded, in order.
  abbrev pub loaded : List (Option Response) → List (List Pool)
  loaded [] = []
  loaded (sent ∷ later) =
      let rest = loaded later in
      elim (load_pool_identification_dataset parse_json sent) [
        | returned pools ↦ pools ∷ rest
        | _ ↦ rest
      ]

  -- The last of some data sets does not depend on the one before them.
  last_behind :
      (before before' pools : List Pool) (rest : List (List Pool))
      → unwrap_or before (last? (pools ∷ rest)) ≡ unwrap_or before' (last? (pools ∷ rest))
  last_behind before before' pools [] = refl
  last_behind before before' pools (next ∷ rest) = last_behind before before' next rest

  last_cons :
      (before pools : List Pool) (rest : List (List Pool))
      → unwrap_or before (last? (pools ∷ rest)) ≡ unwrap_or pools (last? rest)
  last_cons before pools [] = refl
  last_cons before pools (next ∷ rest) = last_behind before pools next rest

  -- The pools are those of the last response that gave a data set, or the embedded list as long as
  -- none did: a failed request, an error status, an unreadable body or one that is no list of pools
  -- changes nothing.
  start_pool_identification_update_thread-loaded :
      (sent : List (Option Response)) (embedded : List Pool)
      → start_pool_identification_update_thread parse_json sent embedded
        ≡ unwrap_or embedded (last? (loaded sent))
  unfolding start_pool_identification_update_thread update_pools
  start_pool_identification_update_thread-loaded [] embedded = refl
  start_pool_identification_update_thread-loaded (response ∷ later) embedded =
      let rest =
        start_pool_identification_update_thread-loaded later
          (update_pools parse_json response embedded) in
      elim (Outcome-cases (load_pool_identification_dataset parse_json response)) [
        | inl e ↦ ground (arith, rest)
        | inr (inl (err, e)) ↦ ground (arith, rest)
        | inr (inr (pools, e)) ↦ ground (arith, rest, last_cons embedded pools (loaded later))
      ]
