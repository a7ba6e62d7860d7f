-- ===== src/Ipamutil/Reconcile.antt =====
-- pkg/ipamutil/reconciler.go: `Reconcile` of a claim, with `reconcileClaimAddress`.
pub mod Deletion
pub mod Progress
pub mod Protected
pub mod Ready
pub mod Guards
use cluster_api_ipam_provide.Base.{
  ℕ, String, Bool, true, false, not, ◌||◌, ◌&&◌, Option, none, some, Result, ok, err, ◌<>◌,
  if◌then◌else◌, Effect, is_some,
}
use cluster_api_ipam_provide.Base.Text.{is_empty}
use cluster_api_ipam_provide.Base.Errors.{
  Error, wrap, aggregate, is_not_found, error_text, nil_dereference, message,
}
use cluster_api_ipam_provide.Api.{Pool, IpAddressClaim, IpAddress, condition_true, condition_false}
use cluster_api_ipam_provide.Cluster.{
  Kube, Controllerutil, Requeue, Outcome, Key, LinkedCluster, Written, Mutated,
}
use cluster_api_ipam_provide.Ipamutil.Address.{new_ip_address, ensure_ip_address_owner_references}
use cluster_api_ipam_provide.Ipamutil.Reconciler.{
  ClaimHandler, Fetched, set_claim_ready, done, failed, hard_error, label_from_claim, record_normal,
  get_linked_cluster, release_address_finalizer, protect_address_finalizer, pool_not_ready_reason,
  allocation_failed_reason, pool_exhausted_reason, address_allocated_reason,
  address_released_reason,
}
use cluster_api_ipam_provide.Ipamutil.Releasing.{reconcile_delete}
use cluster_api_ipam_provide.Ipamutil.Assigning.{assign_address}

module _ {W : Type 0} (kube : Kube W) (util : Controllerutil W) where
  module _ (H : ClaimHandler W) where
    -- with a pool at hand
    unfoldable pub reconcile_with_pool :
        H.State → IpAddressClaim → Pool → W → (IpAddressClaim × Outcome) × W
    reconcile_with_pool state claim pool w =
        if util.has_paused pool
        then (
          (
            set_claim_ready claim condition_false pool_not_ready_reason "referenced pool is paused",
            done,
          ),
          w,
        )
        else if claim.deleting
        then reconcile_delete kube util H state claim w
        else assign_address kube util H state claim pool w

    -- FetchPool failed
    unfoldable pub reconcile_without_pool :
        H.State → IpAddressClaim → Option Requeue → Error → W → (IpAddressClaim × Outcome) × W
    reconcile_without_pool state claim requeue e w =
        if is_not_found e
        then (if claim.deleting then reconcile_delete kube util H state claim w else (
          (
            set_claim_ready claim condition_false pool_not_ready_reason "referenced pool not found",
            done,
          ),
          w,
        ))
        else (
          (
            set_claim_ready claim condition_false allocation_failed_reason (error_text e),
            record { requeue = requeue; error = some (wrap "fetch pool" e) },
          ),
          w,
        )

    -- The nil error of a handler that gives only a result is dereferenced.
    abbrev pub dispatch_to :
        H.State
        → IpAddressClaim
        → Option Pool
        → Option Requeue
        → Option Error
        → W
        → (IpAddressClaim × Outcome) × W
    dispatch_to state claim pool requeue (some e) w = reconcile_without_pool state claim requeue e w
    dispatch_to state claim pool (some r) none w = ((claim, failed nil_dereference), w)
    dispatch_to state claim none none none w = ((claim, failed (message "pool is nil")), w)
    dispatch_to state claim (some pool) none none w = reconcile_with_pool state claim pool w

    abbrev pub dispatch : H.State → IpAddressClaim → Fetched → W → (IpAddressClaim × Outcome) × W
    dispatch state claim fetched w =
        dispatch_to state claim fetched.pool fetched.requeue fetched.error w

    unfoldable pub reconcile_claim_address : IpAddressClaim → W → (IpAddressClaim × Outcome) × W
    reconcile_claim_address claim w =
        let (fetched, state, w') = H.fetch_pool H.start w in dispatch state claim fetched w'

  -- `Adapter.ClaimHandlerFor(r.Client, claim)`
  module _ (handler_for : IpAddressClaim → ClaimHandler W) where
    -- from `controllerutil.AddFinalizer` on, before the deferred patch
    unfoldable pub finalize_or_reconcile : IpAddressClaim → W → (IpAddressClaim × Outcome) × W
    finalize_or_reconcile claim w =
        let (finalizers, added) = util.add_finalizer release_address_finalizer claim.finalizers in
        let claim' = record claim { finalizers = finalizers } in
        if added then ((claim', done), w) else reconcile_claim_address (handler_for claim') claim' w

    abbrev pub aggregated : Outcome → Result Error (Unit {0}) → Outcome
    aggregated outcome (ok u) = outcome
    aggregated outcome (err e) = elim outcome.error [
      | none ↦ record { requeue = outcome.requeue; error = some e }
      | some f ↦ record { requeue = outcome.requeue; error = some (aggregate f e) }
    ]

    -- after `patch.NewHelper`
    abbrev pub after_preparing : IpAddressClaim → Result Error (Unit {0}) → W → Outcome × W
    after_preparing claim (err e) w = (failed e, w)
    after_preparing claim (ok u) w =
        let ((after, outcome), w1) = finalize_or_reconcile claim w in
        let (patched, w2) = kube.patch_claim claim after w1 in (aggregated outcome patched, w2)

    unfoldable pub reconcile_and_patch : IpAddressClaim → W → Outcome × W
    reconcile_and_patch claim w = after_preparing claim (kube.new_claim_helper claim) w

    abbrev pub unless_paused : IpAddressClaim → Option LinkedCluster → W → Outcome × W
    unless_paused claim none w = reconcile_and_patch claim w
    unless_paused claim (some cluster) w =
        if cluster.paused then (done, w) else reconcile_and_patch claim w

    -- a deleted claim outlives its cluster
    abbrev pub after_linking :
        IpAddressClaim → Result Error (Option LinkedCluster) → W → Outcome × W
    after_linking claim (ok cluster) w = unless_paused claim cluster w
    after_linking claim (err e) w =
        if not (is_not_found e)
        then (failed e, w)
        else if not claim.deleting
        then (done, w)
        else unless_paused claim none w

    -- after the claim is read
    unfoldable pub reconcile_linked : IpAddressClaim → W → Outcome × W
    reconcile_linked claim w =
        let (linked, w') = get_linked_cluster kube util claim w in after_linking claim linked w'

    abbrev pub after_getting : Result Error IpAddressClaim → W → Outcome × W
    after_getting (err e) w = ((if is_not_found e then done else failed e), w)
    after_getting (ok claim) w = reconcile_linked claim w

    unfoldable pub reconcile : Key → W → Outcome × W
    reconcile key w =
        let (got, w') = kube.get_claim key.namespace key.name w in after_getting got w'
