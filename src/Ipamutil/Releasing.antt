-- ===== src/Ipamutil/Releasing.antt =====
-- `reconcileDelete` of pkg/ipamutil/reconciler.go: a claim's address is released, then its object deleted.
use cluster_api_ipam_provide.Base.{Option, none, some, Result, ok, err, ◌<>◌, if◌then◌else◌}
use cluster_api_ipam_provide.Base.Errors.{Error, wrap, is_not_found}
use cluster_api_ipam_provide.Api.{IpAddressClaim, IpAddress}
use cluster_api_ipam_provide.Cluster.{Kube, Controllerutil, Requeue, Outcome}
use cluster_api_ipam_provide.Ipamutil.Reconciler.{
  ClaimHandler, done, failed, hard_error, record_normal, release_address_finalizer,
  protect_address_finalizer, address_released_reason,
}

module _ {W : Type 0} (kube : Kube W) (util : Controllerutil W) where
  abbrev pub without_finalizer : IpAddressClaim → IpAddressClaim
  without_finalizer claim = record claim {
    finalizers = (util.remove_finalizer release_address_finalizer claim.finalizers).0;
  }

  abbrev pub after_deletion :
      IpAddressClaim → IpAddress → Option Error → W → (IpAddressClaim × Outcome) × W
  after_deletion claim address (some e) w = ((claim, failed e), w)
  after_deletion claim address none w = (
    (without_finalizer claim, done),
    record_normal kube util address_released_reason "ReleaseAddress"
        ("Released IP address " <> address.address) w,
  )

  -- from `r.Client.Delete` on
  unfoldable pub delete_object : IpAddressClaim → IpAddress → W → (IpAddressClaim × Outcome) × W
  delete_object claim address w =
      let (deleted, w') = kube.delete_address address w in
      after_deletion claim address (hard_error deleted) w'

  abbrev pub after_patch :
      IpAddressClaim → IpAddress → Option Error → W → (IpAddressClaim × Outcome) × W
  after_patch claim unprotected (some e) w =
      ((claim, failed (wrap "remove address finalizer" e)), w)
  after_patch claim unprotected none w = delete_object claim unprotected w

  abbrev pub unprotected : IpAddress → IpAddress
  unprotected address = record address {
    finalizers = (util.remove_finalizer protect_address_finalizer address.finalizers).0;
  }

  unfoldable pub unprotect_and_delete :
      IpAddressClaim → IpAddress → W → (IpAddressClaim × Outcome) × W
  unprotect_and_delete claim address w =
      if (util.remove_finalizer protect_address_finalizer address.finalizers).1
      then (let (patched, w') = kube.patch_address address (unprotected address) w in
          after_patch claim (unprotected address) (hard_error patched) w')
      else delete_object claim (unprotected address) w

  abbrev pub after_read :
      IpAddressClaim → Result Error IpAddress → W → (IpAddressClaim × Outcome) × W
  after_read claim (ok address) w = unprotect_and_delete claim address w
  after_read claim (err e) w =
      if is_not_found e
      then ((without_finalizer claim, done), w)
      else ((claim, failed (wrap "fetch address" e)), w)

  -- The object that was read has the name that was asked for, so it is not empty.
  unfoldable pub delete_address : IpAddressClaim → W → (IpAddressClaim × Outcome) × W
  delete_address claim w =
      let (got, w') = kube.get_address claim.namespace claim.name w in after_read claim got w'

  abbrev pub after_release :
      IpAddressClaim → Option Requeue → Option Error → W → (IpAddressClaim × Outcome) × W
  after_release claim requeue (some e) w =
      ((claim, record { requeue = requeue; error = some (wrap "release address" e) }), w)
  after_release claim requeue none w = delete_address claim w

  module _ (H : ClaimHandler W) where
    unfoldable pub reconcile_delete : H.State → IpAddressClaim → W → (IpAddressClaim × Outcome) × W
    reconcile_delete state claim w =
        let (released, w') = H.release_address state w in
        after_release claim released.requeue released.error w'
