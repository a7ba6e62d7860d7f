-- ===== src/Controller/Pools/Reconciling.antt =====
-- `Reconcile` of internal/controller/netboxippool_controller.go and globalnetboxippool_controller.go.
use cluster_api_ipam_provide.Base.{
  String, Option, none, some, Result, ok, err, if◌then◌else◌, Effect,
}
use cluster_api_ipam_provide.Base.Errors.{Error, is_not_found, aggregate}
use cluster_api_ipam_provide.Api.{Pool, netbox_ip_pool_kind, global_netbox_ip_pool_kind}
use cluster_api_ipam_provide.Cluster.{Outcome, Key}
use cluster_api_ipam_provide.Controller.Pools.{PoolAdapter, reconcile_pool_status}

-- the deferred patch: `kerrors.NewAggregate` of what there is
abbrev pub aggregated : Option Error → Result Error (Unit {0}) → Option Error
aggregated reterr (ok u) = reterr
aggregated none (err e) = some e
aggregated (some f) (err e) = some (aggregate f e)

abbrev pub ignore_not_found : Error → Option Error
ignore_not_found e = if is_not_found e then none else some e

module _ {W : Type 0} (P : PoolAdapter W) where
  unfoldable pub reconcile_and_patch : String → Pool → W → Outcome × W
  reconcile_and_patch kind pool w =
      let ((after, reterr), w1) = reconcile_pool_status P kind pool w in
      let (patched, w2) = P.kube.patch_pool pool after w1 in
      (record { requeue = none; error = aggregated reterr patched }, w2)

  -- after `patch.NewHelper`, and after the pool is read
  abbrev pub after_preparing : String → Pool → Result Error (Unit {0}) → W → Outcome × W
  after_preparing kind pool (err e) w = (record { requeue = none; error = some e }, w)
  after_preparing kind pool (ok u) w = reconcile_and_patch kind pool w

  abbrev pub after_reading : String → Result Error Pool → W → Outcome × W
  after_reading kind (err e) w = (record { requeue = none; error = ignore_not_found e }, w)
  after_reading kind (ok pool) w = after_preparing kind pool (P.kube.new_pool_helper pool) w

  -- `Reconcile` of the reconciler of `kind`, whose pools `get_pool` reads
  unfoldable pub reconcile_pool : String → (Key → Effect W Error Pool) → Key → W → Outcome × W
  reconcile_pool kind get_pool key w =
      let (found, w1) = get_pool key w in after_reading kind found w1

  -- `Reconcile` of `NetBoxIPPoolReconciler` and of `GlobalNetBoxIPPoolReconciler`
  unfoldable pub reconcile_netbox_ip_pool : Key → W → Outcome × W
  reconcile_netbox_ip_pool =
      reconcile_pool netbox_ip_pool_kind
        (λ (key : Key). P.kube.get_netbox_ip_pool key.namespace key.name)

  unfoldable pub reconcile_global_netbox_ip_pool : Key → W → Outcome × W
  reconcile_global_netbox_ip_pool =
      reconcile_pool global_netbox_ip_pool_kind
        (λ (key : Key). P.kube.get_global_netbox_ip_pool key.name)
