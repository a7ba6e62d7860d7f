-- ===== src/Controller/ClaimHandler/Stuck.antt =====
-- A deletion that cannot be taken up again once NetBox's record is gone.
use cluster_api_ipam_provide.Base.{true, false, none, some, ok, err, ◌≡◌, refl}
use cluster_api_ipam_provide.Base.Errors.{wrap}
use cluster_api_ipam_provide.Api.{Pool, IpAddressClaim, IpAddress}
use cluster_api_ipam_provide.Cluster.{Controllerutil}
use cluster_api_ipam_provide.Netbox.Wire.{Client}
use cluster_api_ipam_provide.Controller.Handler.{
  Adapter, sanitized, connect, fetch_pool, missing_address_requeue_after,
}
use cluster_api_ipam_provide.Controller.Releasing.{
  find_existing_netbox_ip, release_from_netbox, release_address, unlocated,
}
use cluster_api_ipam_provide.Controller.ClaimHandler.{claim_handler_for}
use cluster_api_ipam_provide.Ipamutil.Reconcile.{reconcile_with_pool, reconcile_claim_address}
use cluster_api_ipam_provide.Ipamutil.Releasing.{reconcile_delete}

module _ {W : Type 0} (A : Adapter W) (util : Controllerutil W) (claim : IpAddressClaim)
    (pool : Pool) where
  release_address-unlocated :
      (client : Client W) (k8s : IpAddress) (w w1 w2 w3 : W)
      → A.kube.get_address claim.namespace claim.name w ≡ (ok k8s, w1)
      → connect A claim pool w1 ≡ (ok client, w2)
      → find_existing_netbox_ip A claim pool client (some k8s) w2 ≡ (ok none, w3)
      → release_address A claim (some pool) w ≡ (err (sanitized (unlocated A claim pool k8s)), w3)
  unfolding release_address release_from_netbox
  release_address-unlocated client k8s w w1 w2 w3 er ec ef = rw er (rw ec (rw ef refl))

  -- A claim that is being deleted, whose pool is read and is not paused, and whose client is made, while
  -- the cluster still has its address object and NetBox has no record of the claim any more, by its UID
  -- or by the address: the reconcile fails, leaves the claim and its finalizers as they are, and asks
  -- for another try after 5 seconds.
  pub release_stuck :
      (client : Client W) (k8s : IpAddress) (w w1 w2 w3 w4 : W)
      → claim.deleting ≡ true
      → util.has_paused pool ≡ false
      → fetch_pool A claim w ≡ (ok pool, w1)
      → A.kube.get_address claim.namespace claim.name w1 ≡ (ok k8s, w2)
      → connect A claim pool w2 ≡ (ok client, w3)
      → find_existing_netbox_ip A claim pool client (some k8s) w3 ≡ (ok none, w4)
      → reconcile_claim_address A.kube util (claim_handler_for A claim) claim w ≡ (
        (
          claim,
          record {
            requeue = some (record { after = missing_address_requeue_after });
            error = some (wrap "release address" (sanitized (unlocated A claim pool k8s)).cause);
          },
        ),
        w4,
      )
  unfolding reconcile_claim_address claim_handler_for reconcile_with_pool reconcile_delete
  release_stuck client k8s w w1 w2 w3 w4 deleting live ep er ec ef = rw ep (
      rw live (simp deleting (rw (release_address-unlocated client k8s w1 w2 w3 w4 er ec ef) refl)))
