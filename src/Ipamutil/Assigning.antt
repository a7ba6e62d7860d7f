-- ===== src/Ipamutil/Assigning.antt =====
-- `ensureAddress` of pkg/ipamutil/reconciler.go, and what `reconcileClaimAddress` does with its address.
use cluster_api_ipam_provide.Base.{
  String, Bool, true, false, not, ◌&&◌, Option, none, some, Result, ok, err, ◌<>◌, if◌then◌else◌,
  Effect,
}
use cluster_api_ipam_provide.Base.Text.{is_empty}
use cluster_api_ipam_provide.Base.Errors.{Error, wrap, is_not_found, error_text}
use cluster_api_ipam_provide.Api.{Pool, IpAddressClaim, IpAddress, condition_true, condition_false}
use cluster_api_ipam_provide.Cluster.{Kube, Controllerutil, Requeue, Outcome, Mutated}
use cluster_api_ipam_provide.Ipamutil.Address.{new_ip_address, ensure_ip_address_owner_references}
use cluster_api_ipam_provide.Ipamutil.Reconciler.{
  ClaimHandler, set_claim_ready, done, failed, label_from_claim, record_normal,
  protect_address_finalizer, allocation_failed_reason, pool_exhausted_reason,
  address_allocated_reason,
}

module _ {W : Type 0} (kube : Kube W) (util : Controllerutil W) where
  module _ (H : ClaimHandler W) where
    -- the mutate function after EnsureAddress
    abbrev pub own : IpAddressClaim → Pool → Mutated → Result Error IpAddress → Mutated
    own claim pool m (err e) = record m { error = some (wrap "ensure owner references" e) }
    own claim pool m (ok address) =
        let labelled = label_from_claim claim address in
        record m {
          address = record labelled {
            finalizers = (util.add_finalizer protect_address_finalizer labelled.finalizers).0;
          };
          error = none;
        }

    unfoldable pub mutate : H.State → IpAddressClaim → Pool → IpAddress → W → Mutated × W
    mutate state claim pool address w =
        let (m, w') = H.ensure_address state address w in
        elim m.error [
          | some e ↦ (m, w')
          | none ↦
              (own claim pool m (ensure_ip_address_owner_references util m.address claim pool), w')
        ]

    abbrev pub failure_reason : Option Requeue → String
    failure_reason none = allocation_failed_reason
    failure_reason (some r) = pool_exhausted_reason

    abbrev pub visible : IpAddress → Effect W Error Bool
    visible address w =
        let (got, w') = kube.get_address address.namespace address.name w in
        elim got [
          | ok a ↦ (ok true, w')
          | err e ↦ ((if is_not_found e then ok false else err e), w')
        ]

    abbrev pub after_waiting :
        IpAddressClaim
        → IpAddress
        → Option Error
        → W
        → (IpAddressClaim × Result Outcome IpAddress) × W
    after_waiting claim address none w = ((claim, ok address), w)
    after_waiting claim address (some e) w = (
      (
        set_claim_ready claim condition_false allocation_failed_reason (error_text e),
        err (
            failed (
              wrap
                ("wait for IPAddress " <> address.namespace <> "/" <> address.name
                  <> " cache visibility")
                e)),
      ),
      w,
    )

    unfoldable pub await_visible :
        IpAddressClaim → IpAddress → W → (IpAddressClaim × Result Outcome IpAddress) × W
    await_visible claim address w =
        let (timed_out, w') = util.poll (visible address) w in
        after_waiting claim address timed_out w'

    abbrev pub after_writing :
        IpAddressClaim
        → IpAddress
        → Option Requeue
        → Option Error
        → W
        → (IpAddressClaim × Result Outcome IpAddress) × W
    after_writing claim address requeue (some e) w = (
      (
        set_claim_ready claim condition_false (failure_reason requeue) (error_text e),
        err (record { requeue = requeue; error = some (wrap "create or patch address" e) }),
      ),
      w,
    )
    after_writing claim address (some r) none w = ((claim, ok address), w)
    after_writing claim address none none w = await_visible claim address w

    -- `ensureAddress`: the claim as it is left, and the address unless an error is returned. A result
    -- for the queue that comes with no error is dropped by the caller.
    unfoldable pub ensure_address :
        H.State → IpAddressClaim → Pool → W → (IpAddressClaim × Result Outcome IpAddress) × W
    ensure_address state claim pool w =
        let (written, w') =
          util.create_or_patch (new_ip_address claim pool) (mutate state claim pool) w in
        after_writing claim written.address written.requeue written.error w'

    abbrev pub announce : IpAddressClaim → IpAddress → W → W
    announce claim address w =
        if is_empty claim.address_ref && not (is_empty address.address)
        then record_normal kube util address_allocated_reason "AllocateAddress"
            ("Allocated IP address " <> address.address) w
        else w

    abbrev pub with_address : IpAddressClaim → IpAddress → IpAddressClaim
    with_address claim address =
        set_claim_ready (record claim { address_ref = address.name }) condition_true
          address_allocated_reason ("IP address " <> address.address <> " allocated")

    abbrev pub after_ensuring :
        IpAddressClaim → Result Outcome IpAddress → W → (IpAddressClaim × Outcome) × W
    after_ensuring claim (err outcome) w = ((claim, outcome), w)
    after_ensuring claim (ok address) w =
        ((with_address claim address, done), announce claim address w)

    unfoldable pub assign_address :
        H.State → IpAddressClaim → Pool → W → (IpAddressClaim × Outcome) × W
    assign_address state claim pool w =
        let ((claim', ensured), w') = ensure_address state claim pool w in
        after_ensuring claim' ensured w'
