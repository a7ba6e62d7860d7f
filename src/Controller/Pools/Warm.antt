-- ===== src/Controller/Pools/Warm.antt =====
-- A reconcile of a pool that has its prefixes already.
use cluster_api_ipam_provide.Base.{
  ℕ, ◌<◌, ◌^◌, String, false, List, [], ◌∷◌, Option, none, ok, ◌≡◌, refl, arith, length, ◌∙◌, ap,
}
use cluster_api_ipam_provide.Base.Errors.{Error}
use cluster_api_ipam_provide.Base.Int.{ℤ, pos, ==ℤ_iff}
use cluster_api_ipam_provide.Api.{Pool, NetBoxIpPoolStatus, IpAddress, condition_true}
use cluster_api_ipam_provide.Controller.Pools.{
  PoolAdapter, pool_finalizer, ready_condition, set_pool_ready_condition, ensure_cluster_name_label,
  is_empty_list, needs_resolution, resolve_if_needed, guard_deletion, observed, counted,
  update_status, reconcile_pool_status, list_addresses_in_use,
}
use cluster_api_ipam_provide.Controller.Pools.Lifecycle.{
  reconcile_pool_status-listed, Kept-label, Kept-ready, status-label,
}

module _ {W : Type 0} (P : PoolAdapter W) where
  -- The last condition of a pool that is not being deleted.
  pub guard_deletion_live :
      (n : ℕ) (e : Option Error) (p : Pool) (w : W)
      → p.deleting ≡ false
      → guard_deletion P n e p w
        ≡ ((record p { finalizers = (P.util.add_finalizer pool_finalizer p.finalizers).0 }, e), w)
  unfolding guard_deletion
  guard_deletion_live n e p w d = rw (d, guard_deletion)

  resolve_if_needed_warm :
      (previous : ℤ) (p : Pool) (w : W)
      → needs_resolution previous p ≡ false
      → resolve_if_needed P previous p w ≡ ((p, none), w)
  unfolding resolve_if_needed
  resolve_if_needed_warm previous p w h = rw h

  update_status_warm :
      (previous : ℤ) (n : ℕ) (p : Pool) (z : ℤ) (w : W)
      → needs_resolution previous (counted p z) ≡ false
      → p.deleting ≡ false
      → update_status P previous n p z w ≡ (
        (
          record (ensure_cluster_name_label
              (set_pool_ready_condition (counted p z) none)
              p.spec.cluster_name) {
                finalizers =
                    (P.util.add_finalizer pool_finalizer
                      (ensure_cluster_name_label
                        (set_pool_ready_condition (counted p z) none)
                        p.spec.cluster_name).finalizers).0;
              },
          none,
        ),
        w,
      )
  unfolding update_status
  update_status_warm previous n p z w h d =
      let ready = set_pool_ready_condition (counted p z) none in
      rw (resolve_if_needed_warm previous (counted p z) w h) (
        guard_deletion_live n none (ensure_cluster_name_label ready p.spec.cluster_name) w (
          (Kept-label ready p.spec.cluster_name).deleting
          ∙ ((Kept-ready (counted p z) none).deleting ∙ d)))

  -- A pool that is not being deleted, and has prefixes that are resolved for the generation that was
  -- observed, is ready again with no call beyond the listing of its addresses, when that gives fewer
  -- than 2 ^ 31: the world is left as the listing left it, and the prefixes stay.
  pub reconcile_pool_status_warm :
      (kind : String) (pool : Pool) (w w1 : W) (addresses : List IpAddress)
      → list_addresses_in_use P pool.namespace kind pool.name w ≡ (ok addresses, w1)
      → length addresses < 2 ^ 31
      → pool.deleting ≡ false
      → is_empty_list pool.status.resolved_prefixes ≡ false
      → pool.status.observed_generation ≡ pool.generation
      → ((reconcile_pool_status P kind pool w).1 ≡ w1)
        × ((reconcile_pool_status P kind pool w).0.1 ≡ none)
        × ((reconcile_pool_status P kind pool w).0.0.status.resolved_prefixes
            ≡ pool.status.resolved_prefixes)
        × ((reconcile_pool_status P kind pool w).0.0.status.conditions
            ≡ ready_condition pool condition_true "PoolReady" "pool is ready to serve claims" ∷ [])
  unfolding set_pool_ready_condition
  reconcile_pool_status_warm kind pool w w1 addresses listed small d warm same =
      let n = length addresses in
      let start = counted (observed pool) (pos n) in
      let settled : needs_resolution pool.status.observed_generation start ≡ false =
        ground (arith, ==ℤ_iff pool.status.observed_generation pool.generation) in
      let kept = status-label (set_pool_ready_condition start none) pool.spec.cluster_name in
      rw (reconcile_pool_status-listed P kind pool w w1 addresses listed small) (
        rw
          (update_status_warm pool.status.observed_generation n (observed pool) (pos n) w1 settled
            d)
          (
            refl,
            refl,
            ap (λ (s : NetBoxIpPoolStatus). s.resolved_prefixes) kept,
            ap (λ (s : NetBoxIpPoolStatus). s.conditions) kept,
          ))
