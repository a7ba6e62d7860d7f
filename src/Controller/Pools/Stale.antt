-- ===== src/Controller/Pools/Stale.antt =====
-- What follows a resolution that failed: the pool's generation counts as observed all the same, so the
-- next reconcile keeps the prefixes of the older specification and reports the pool as ready.
use cluster_api_ipam_provide.Base.{
  ℕ, ◌<◌, ◌^◌, String, true, false, List, [], ◌∷◌, none, some, ok, err, ◌≡◌, ◌≢◌, refl, arith,
  length, ◌∙◌, ap, sym,
}
use cluster_api_ipam_provide.Base.Errors.{Error}
use cluster_api_ipam_provide.Base.Int.{ℤ, pos, ==ℤ_iff}
use cluster_api_ipam_provide.Api.{Pool, NetBoxIpPoolStatus, IpAddress, condition_true}
use cluster_api_ipam_provide.Controller.Pools.{
  PoolAdapter, ready_condition, resolve_pool_prefixes, resolve_if_needed, needs_resolution,
  observed, counted, update_status, is_empty_list, reconcile_pool_status, list_addresses_in_use,
  ensure_cluster_name_label, set_pool_ready_condition, guard_deletion,
}
use cluster_api_ipam_provide.Controller.Pools.Lifecycle.{
  reconcile_pool_status-listed, Kept-label, status-label,
}
use cluster_api_ipam_provide.Controller.Pools.Warm.{reconcile_pool_status_warm, guard_deletion_live}

module _ {W : Type 0} (P : PoolAdapter W) (kind : String) where
  -- What a failed resolution leaves of a pool that is not being deleted.
  record Failed (pool after : Pool) : Type 0 where
    live : after.deleting ≡ false
    generation : after.generation ≡ pool.generation
    observed_generation : after.status.observed_generation ≡ pool.generation
    resolved_prefixes : after.status.resolved_prefixes ≡ pool.status.resolved_prefixes

  update_status_failed :
      (previous : ℤ) (n : ℕ) (p : Pool) (z : ℤ) (w w' : W) (e : Error)
      → needs_resolution previous (counted p z) ≡ true
      → resolve_pool_prefixes P (counted p z) w ≡ (err e, w')
      → p.deleting ≡ false
      → update_status P previous n p z w
        ≡ guard_deletion P n
            (some e)
            (ensure_cluster_name_label
              (set_pool_ready_condition (counted p z) (some e))
              p.spec.cluster_name)
            w'
  unfolding update_status resolve_if_needed
  update_status_failed previous n p z w w' e stale failed d = rw stale (rw failed refl)

  Failed-reconcile :
      (pool : Pool) (w w1 w2 : W) (addresses : List IpAddress) (e : Error)
      → list_addresses_in_use P pool.namespace kind pool.name w ≡ (ok addresses, w1)
      → length addresses < 2 ^ 31
      → pool.deleting ≡ false
      → needs_resolution pool.status.observed_generation
          (counted (observed pool) (pos (length addresses)))
        ≡ true
      → resolve_pool_prefixes P (counted (observed pool) (pos (length addresses))) w1 ≡ (err e, w2)
      → Failed pool (reconcile_pool_status P kind pool w).0.0
        × ((reconcile_pool_status P kind pool w).0.1 ≡ some e)
  unfolding set_pool_ready_condition
  Failed-reconcile pool w w1 w2 addresses e listed small d stale failed =
      let n = length addresses in
      let p = set_pool_ready_condition (counted (observed pool) (pos n)) (some e) in
      let label = Kept-label p pool.spec.cluster_name in
      rw (reconcile_pool_status-listed P kind pool w w1 addresses listed small) (
        rw
          (update_status_failed pool.status.observed_generation n (observed pool) (pos n) w1 w2 e
            stale failed d)
          (rw
            (guard_deletion_live P n (some e) (ensure_cluster_name_label p pool.spec.cluster_name)
              w2 (label.deleting ∙ d))
            (
              record {
                live = label.deleting ∙ d;
                generation = label.generation;
                observed_generation = label.observed_generation;
                resolved_prefixes =
                    ap (λ (s : NetBoxIpPoolStatus). s.resolved_prefixes)
                      (status-label p pool.spec.cluster_name);
              },
              refl,
            )))

  -- When the prefixes of a changed specification cannot be resolved, for a pool that has some resolved
  -- already and is not being deleted, the reconcile fails; but the next one, although nothing was
  -- resolved in between, makes no call beyond listing the addresses, succeeds, keeps the prefixes of the
  -- older specification, and reports the pool as ready. Both times the addresses can be listed, and
  -- are fewer than 2 ^ 31.
  pub failed_resolution_turns_ready :
      (pool : Pool) (w w1 w2 w3 w4 : W) (addresses later : List IpAddress) (e : Error)
      → list_addresses_in_use P pool.namespace kind pool.name w ≡ (ok addresses, w1)
      → length addresses < 2 ^ 31
      → pool.deleting ≡ false
      → is_empty_list pool.status.resolved_prefixes ≡ false
      → pool.status.observed_generation ≢ pool.generation
      → resolve_pool_prefixes P (counted (observed pool) (pos (length addresses))) w1 ≡ (err e, w2)
      → list_addresses_in_use P
          (reconcile_pool_status P kind pool w).0.0.namespace
          kind
          (reconcile_pool_status P kind pool w).0.0.name
          w3
        ≡ (ok later, w4)
      → length later < 2 ^ 31
      → ((reconcile_pool_status P kind pool w).0.1 ≡ some e)
        × ((reconcile_pool_status P kind (reconcile_pool_status P kind pool w).0.0 w3).1 ≡ w4)
        × ((reconcile_pool_status P kind (reconcile_pool_status P kind pool w).0.0 w3).0.1 ≡ none)
        × ((reconcile_pool_status P kind
              (reconcile_pool_status P kind pool w).0.0
              w3).0.0.status.resolved_prefixes
            ≡ pool.status.resolved_prefixes)
        × ((reconcile_pool_status P kind
              (reconcile_pool_status P kind pool w).0.0
              w3).0.0.status.conditions
            ≡ ready_condition
                (reconcile_pool_status P kind pool w).0.0
                condition_true
                "PoolReady"
                "pool is ready to serve claims"
              ∷ [])
  failed_resolution_turns_ready pool w w1 w2 w3 w4 addresses later e listed small d warm changed
        failed again small' =
      let stale : needs_resolution pool.status.observed_generation
            (counted (observed pool) (pos (length addresses)))
          ≡ true =
        ground (arith, ==ℤ_iff pool.status.observed_generation pool.generation) in
      let (f, error) = Failed-reconcile pool w w1 w2 addresses e listed small d stale failed in
      let after = (reconcile_pool_status P kind pool w).0.0 in
      let (a, b, c, k) =
        reconcile_pool_status_warm P kind after w3 w4 later again small' f.live
          (ap is_empty_list f.resolved_prefixes ∙ warm)
          (f.observed_generation ∙ sym f.generation) in
      (error, a, b, c ∙ f.resolved_prefixes, k)
