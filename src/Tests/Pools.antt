-- ===== src/Tests/Pools.antt =====
-- Examples of the pool controller.
use cluster_api_ipam_provide.Netbox.Client.{sanitized_error}
use cluster_api_ipam_provide.Base.Dict.{lookup}
use cluster_api_ipam_provide.Netbox.Config.{load_connection_config, connection_config}
use cluster_api_ipam_provide.Base.{
  ℕ, ◌<◌, ◌^◌, true, [], ◌∷◌, none, some, ok, err, ◌≡◌, ◌↔◌, refl, arith,
}
use cluster_api_ipam_provide.Base.Errors.{message}
use cluster_api_ipam_provide.Base.Int.{pos}
use cluster_api_ipam_provide.Api.{
  Pool, netbox_ip_pool_kind, global_netbox_ip_pool_kind, condition_true,
}
use cluster_api_ipam_provide.Controller.Pools.{
  PoolAdapter, safe_allocated_count, reconcile_pool_status, ready_condition, list_addresses_in_use,
  resolve_pool_prefixes,
}
use cluster_api_ipam_provide.Controller.Pools.Reconciling.{
  reconcile_netbox_ip_pool, reconcile_global_netbox_ip_pool,
}
use cluster_api_ipam_provide.Controller.Pools.Course.{Course, reconcile_pool_course}
use cluster_api_ipam_provide.Controller.Pools.Count.{safe_allocated_count_iff}
use cluster_api_ipam_provide.Controller.Pools.Lifecycle.{Deletion, reconcile_pool_status-deleting}
use cluster_api_ipam_provide.Controller.Pools.Warm.{reconcile_pool_status_warm}
use cluster_api_ipam_provide.Controller.Pools.Stale.{failed_resolution_turns_ready}
use cluster_api_ipam_provide.Tests.World.{kube, util, netip, client, a_pool, set_address}

abbrev pub pools : PoolAdapter ℕ
pools = record {
  kube = kube;
  util = util;
  netip = netip;
  recorder = some (λ event w. w);
  new_client = λ cfg. ok client;
  request_timeout = pos 1;
}

safe_allocated_count_iff_example :
    (safe_allocated_count 12 ≡ ok (pos 12)) ↔ ((12 < 2 ^ 31) × (pos 12 ≡ pos 12))
safe_allocated_count_iff_example = safe_allocated_count_iff 12 (pos 12)

-- A pool that is being deleted, with one address in use.
abbrev doomed : Pool
doomed = record a_pool { deleting = true; finalizers = "f" ∷ [] }

reconcile_pool_status-deleting_example :
    Deletion pools 1 ("f" ∷ []) (reconcile_pool_status pools netbox_ip_pool_kind doomed 0)
unfolding list_addresses_in_use
reconcile_pool_status-deleting_example =
    reconcile_pool_status-deleting pools netbox_ip_pool_kind doomed 0 1 (set_address ∷ []) refl
      (omega arith) refl

reconcile_pool_status_warm_example :
    ((reconcile_pool_status pools netbox_ip_pool_kind a_pool 0).1 ≡ 1)
    × ((reconcile_pool_status pools netbox_ip_pool_kind a_pool 0).0.1 ≡ none)
    × ((reconcile_pool_status pools netbox_ip_pool_kind a_pool 0).0.0.status.resolved_prefixes
        ≡ pos 7 ∷ pos 8 ∷ [])
    × ((reconcile_pool_status pools netbox_ip_pool_kind a_pool 0).0.0.status.conditions
        ≡ ready_condition a_pool condition_true "PoolReady" "pool is ready to serve claims" ∷ [])
unfolding list_addresses_in_use
reconcile_pool_status_warm_example =
    reconcile_pool_status_warm pools netbox_ip_pool_kind a_pool 0 1 (set_address ∷ []) refl
      (omega arith) refl refl refl

-- A pool whose specification has changed, and a NetBox that refuses its token.
abbrev changed : Pool
changed = record a_pool { generation = pos 2 }

abbrev refusing : PoolAdapter ℕ
refusing = record pools { new_client = λ cfg. err (message "refused") }

failed_resolution_turns_ready_example :
    ((reconcile_pool_status refusing netbox_ip_pool_kind changed 0).0.1 ≡ some (message "refused"))
    × ((reconcile_pool_status refusing netbox_ip_pool_kind
          (reconcile_pool_status refusing netbox_ip_pool_kind changed 0).0.0
          9).1
        ≡ 10)
    × ((reconcile_pool_status refusing netbox_ip_pool_kind
          (reconcile_pool_status refusing netbox_ip_pool_kind changed 0).0.0
          9).0.1
        ≡ none)
    × ((reconcile_pool_status refusing netbox_ip_pool_kind
          (reconcile_pool_status refusing netbox_ip_pool_kind changed 0).0.0
          9).0.0.status.resolved_prefixes
        ≡ pos 7 ∷ pos 8 ∷ [])
    × ((reconcile_pool_status refusing netbox_ip_pool_kind
          (reconcile_pool_status refusing netbox_ip_pool_kind changed 0).0.0
          9).0.0.status.conditions
        ≡ ready_condition
            (reconcile_pool_status refusing netbox_ip_pool_kind changed 0).0.0
            condition_true
            "PoolReady"
            "pool is ready to serve claims"
          ∷ [])
unfolding list_addresses_in_use resolve_pool_prefixes load_connection_config connection_config
    lookup sanitized_error
failed_resolution_turns_ready_example =
    failed_resolution_turns_ready refusing netbox_ip_pool_kind changed 0 1 2 9 10 (set_address ∷ [])
      (set_address ∷ []) (message "refused") refl (omega arith) refl refl (λ e. cc) refl refl
      (omega arith)

reconcile_pool_course_example :
    Course pools netbox_ip_pool_kind 1
      (ok a_pool)
      (reconcile_netbox_ip_pool pools (record { namespace = "ns"; name = "pool" }) 0)
    × Course pools global_netbox_ip_pool_kind 1
        (ok a_pool)
        (reconcile_global_netbox_ip_pool pools (record { namespace = "ns"; name = "pool" }) 0)
reconcile_pool_course_example =
    reconcile_pool_course pools (record { namespace = "ns"; name = "pool" }) 0
