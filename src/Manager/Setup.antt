-- ===== src/Manager/Setup.antt =====
-- `SetupWithManager` of the claim reconciler (pkg/ipamutil/reconciler.go), of its adapter
-- (internal/controller/ipaddressclaim_controller.go) and of the two pool reconcilers, SetupIndexes of
-- internal/index/index.go, and setupControllers of cmd/main.go.
use cluster_api_ipam_provide.Base.{
  String, true, List, [], ◌∷◌, ◌++◌, Option, none, some, Result, ok, Effect, fail, lift, wrapping,
  ◌>>=◌, ◌>>◌,
}
use cluster_api_ipam_provide.Base.Dict.{Dict}
use cluster_api_ipam_provide.Base.Errors.{Error, wrap, message}
use cluster_api_ipam_provide.Base.Int.{ℤ}
use cluster_api_ipam_provide.Api.{IpAddressClaim}
use cluster_api_ipam_provide.Cluster.{Kube}
use cluster_api_ipam_provide.Index.{
  ip_address_by_combined_pool_ref, ip_address_claim_by_combined_pool_ref,
}
use cluster_api_ipam_provide.Predicates.{
  Object, claim, address, cluster, another, watched_claim_event, watched_address_event,
  watched_cluster_event,
}
use cluster_api_ipam_provide.Netbox.Config.{ConnectionConfig}
use cluster_api_ipam_provide.Netbox.Gateway.{Netip}
use cluster_api_ipam_provide.Netbox.Wire.{Client}
use cluster_api_ipam_provide.Controller.ClaimHandler.{claim_handler_for}
use cluster_api_ipam_provide.Controller.Pools.{PoolAdapter}
use cluster_api_ipam_provide.Controller.Pools.Reconciling.{
  reconcile_netbox_ip_pool, reconcile_global_netbox_ip_pool,
}
use cluster_api_ipam_provide.Ipamutil.Reconciler.{
  ClaimHandler, index_cluster_name, cluster_to_ip_claims,
}
use cluster_api_ipam_provide.Ipamutil.Reconcile.{reconcile}
use cluster_api_ipam_provide.Manager.Builder.{
  ObjectType, ip_address_claim, ip_address, capi_cluster, netbox_pool, global_netbox_pool, Builder,
  new_builder, Manager,
}

-- The index functions on any object: `none` is a panic.
unfoldable pub address_pool_ref_index : Object → Option (List String)
address_pool_ref_index (address a) = some (ip_address_by_combined_pool_ref a)
address_pool_ref_index (claim c) = none
address_pool_ref_index (cluster c) = none
address_pool_ref_index another = none

unfoldable pub claim_pool_ref_index : Object → Option (List String)
claim_pool_ref_index (claim c) = some (ip_address_claim_by_combined_pool_ref c)
claim_pool_ref_index (address a) = none
claim_pool_ref_index (cluster c) = none
claim_pool_ref_index another = none

unfoldable pub cluster_name_index : Object → Option (List String)
cluster_name_index (claim c) = some (index_cluster_name c)
cluster_name_index (address a) = some []
cluster_name_index (cluster c) = some []
cluster_name_index another = some []

-- The interface `ProviderAdapter`.
pub record ProviderAdapter (W : Type 0) : Type 1 where
  pub setup_with_manager : Builder W → Result Error (Builder W)
  pub claim_handler_for : Kube W → IpAddressClaim → ClaimHandler W

-- `NetBoxProviderAdapter.SetupWithManager`
unfoldable pub adapter_setup : {W : Type 0} → Builder W → Result Error (Builder W)
adapter_setup b = ok (record b {
  controlled = some (ip_address_claim, watched_claim_event);
  max_concurrent_reconciles = some 1;
  owned = b.owned ++ ((ip_address, watched_address_event) ∷ []);
})

-- The code outside the repository that the reconcilers use, and `nb.NewClient`.
pub record Libraries (W : Type 0) : Type 1 where
  pub netip : Netip
  pub unmarshal : String → Result Error (Dict String)
  pub new_client : ConnectionConfig → Result Error (Client W)

-- `NetBoxProviderAdapter`, and the fields of a pool reconciler; a function that is nil is `none`.
pub record NetBoxSettings (W : Type 0) : Type 1 where
  pub new_client : Option (ConnectionConfig → Result Error (Client W))
  pub request_timeout : ℤ

module _ {W : Type 0} (L : Libraries W) where
  -- `nb.NewClient` where no other function is given
  abbrev pub client_function :
      Option (ConnectionConfig → Result Error (Client W))
      → ConnectionConfig
      → Result Error (Client W)
  client_function none = L.new_client
  client_function (some f) = f

  unfoldable pub netbox_provider_adapter : NetBoxSettings W → ProviderAdapter W
  netbox_provider_adapter a = record {
    setup_with_manager = adapter_setup;
    claim_handler_for = λ c. claim_handler_for (record {
      kube = c;
      netip = L.netip;
      unmarshal = L.unmarshal;
      new_client = client_function a.new_client;
      request_timeout = a.request_timeout;
    });
  }

module _ {W : Type 0} (mgr : Manager W) where
  -- `SetupIndexes`
  unfoldable pub setup_indexes : Effect W Error (Unit {0})
  setup_indexes = do
    mgr.index_field ip_address "index.poolRef" address_pool_ref_index
    mgr.index_field ip_address_claim "index.poolRef" claim_pool_ref_index

  abbrev pub claim_builder : (watch_filter_value : String) → Builder W
  claim_builder watch_filter_value = record new_builder {
    event_filter = mgr.resource_not_paused_and_has_filter_label watch_filter_value;
    watched =
        record {
          object = capi_cluster;
          requests = cluster_to_ip_claims mgr.client mgr.util;
          filter = watched_cluster_event;
        }
        ∷ [];
  }

  -- `ClaimReconciler.SetupWithManager`; an adapter that is nil is `none`
  unfoldable pub setup_claim_reconciler :
      String → Option (ProviderAdapter W) → Effect W Error (Unit {0})
  setup_claim_reconciler watch_filter_value none = fail (message "adapter is nil")
  setup_claim_reconciler watch_filter_value (some adapter) = do
    wrapping (wrap "register IPAddressClaim clusterName index")
        (mgr.index_field ip_address_claim "clusterName" cluster_name_index)
    b ← lift (adapter.setup_with_manager (claim_builder watch_filter_value))
    mgr.complete b (reconcile mgr.client mgr.util (adapter.claim_handler_for mgr.client))

  abbrev pub pool_builder : String → ObjectType → String → Builder W
  pool_builder watch_filter_value object name = record new_builder {
    controlled = some (object, mgr.resource_not_paused_and_has_filter_label watch_filter_value);
    owned = (ip_address, λ e. true) ∷ [];
    name = name;
  }

  module _ (L : Libraries W) where
    abbrev pub pool_adapter : (recorder : String) → NetBoxSettings W → PoolAdapter W
    pool_adapter recorder r = record {
      kube = mgr.client;
      util = mgr.util;
      netip = L.netip;
      recorder = mgr.get_event_recorder recorder;
      new_client = client_function L r.new_client;
      request_timeout = r.request_timeout;
    }

    -- `NetBoxIPPoolReconciler.SetupWithManager`
    unfoldable pub setup_netbox_ip_pool_reconciler :
        String → NetBoxSettings W → Effect W Error (Unit {0})
    setup_netbox_ip_pool_reconciler watch_filter_value r =
        mgr.complete (pool_builder watch_filter_value netbox_pool "netboxippool")
          (reconcile_netbox_ip_pool (pool_adapter "netboxippool" r))

    -- `GlobalNetBoxIPPoolReconciler.SetupWithManager`
    unfoldable pub setup_global_netbox_ip_pool_reconciler :
        String → NetBoxSettings W → Effect W Error (Unit {0})
    setup_global_netbox_ip_pool_reconciler watch_filter_value r =
        mgr.complete (pool_builder watch_filter_value global_netbox_pool "globalnetboxippool")
          (reconcile_global_netbox_ip_pool (pool_adapter "globalnetboxippool" r))

    abbrev pub settings_for : ℤ → NetBoxSettings W
    settings_for timeout = record { new_client = none; request_timeout = timeout }

    -- `setupControllers`, which gives no `NewClient`
    unfoldable pub setup_controllers : String → ℤ → Effect W Error (Unit {0})
    setup_controllers watch_filter netbox_request_timeout = do
      let settings = settings_for netbox_request_timeout
      wrapping (wrap "create IPAddressClaim reconciler")
          (setup_claim_reconciler watch_filter (some (netbox_provider_adapter L settings)))
      wrapping (wrap "create NetBoxIPPool reconciler")
          (setup_netbox_ip_pool_reconciler watch_filter settings)
      wrapping (wrap "create GlobalNetBoxIPPool reconciler")
          (setup_global_netbox_ip_pool_reconciler watch_filter settings)

  -- `addProbes`
  unfoldable pub add_probes : Effect W Error (Unit {0})
  add_probes = do
    wrapping (wrap "set up health check") (mgr.add_healthz_check "healthz")
    wrapping (wrap "set up ready check") (mgr.add_readyz_check "readyz")
