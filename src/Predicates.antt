-- ===== src/Predicates.antt =====
-- pkg/predicates/references.go, and what `SetupWithManager` of the provider's adapter makes of it: the
-- predicates of the claim reconciler's watches. The filter that is common to them, for pauses and for a
-- label, is controller-runtime's: `event_filter` of Manager/Builder.antt.
pub mod Watched
use cluster_api_ipam_provide.Cluster.{LinkedCluster}
use cluster_api_ipam_provide.Base.{String, Bool, true, false, ◌&&◌, ◌||◌, ◌=ˢ◌, not}
use cluster_api_ipam_provide.Api.{
  GroupKind, IpPoolReference, IpAddress, IpAddressClaim, group_kind_netbox_ip_pool,
  group_kind_global_netbox_ip_pool,
}

-- `client.Object` as far as the type assertions look into it.
pub data Object : Type 0 where
  claim : IpAddressClaim → Object
  address : IpAddress → Object
  cluster : LinkedCluster → Object
  another : Object

pub data Event : Type 0 where
  create delete generic : Object → Event
  update : (old new : Object) → Event

abbrev pub references : GroupKind → IpPoolReference → Bool
references gk ref = ref.kind =ˢ gk.kind && ref.api_group =ˢ gk.group

unfoldable pub claim_references_pool_kind : GroupKind → Object → Bool
claim_references_pool_kind gk (claim c) = references gk c.pool_ref
claim_references_pool_kind gk (address a) = false
claim_references_pool_kind gk (cluster c) = false
claim_references_pool_kind gk another = false

unfoldable pub address_references_pool_kind : GroupKind → Object → Bool
address_references_pool_kind gk (claim c) = false
address_references_pool_kind gk (address a) = references gk a.pool_ref
address_references_pool_kind gk (cluster c) = false
address_references_pool_kind gk another = false

-- the four functions of `predicate.Funcs`
abbrev pub on_event : (Object → Bool) → Event → Bool
on_event test (create o) = test o
on_event test (delete o) = test o
on_event test (generic o) = test o
on_event test (update old new) = test new

-- `ClaimReferencesPoolKind` and `AddressReferencesPoolKind`
unfoldable pub claim_events : GroupKind → Event → Bool
unfolding claim_references_pool_kind
claim_events gk = on_event (claim_references_pool_kind gk)

unfoldable pub address_events : GroupKind → Event → Bool
unfolding address_references_pool_kind
address_events gk = on_event (address_references_pool_kind gk)

-- `predicate.Or` of both kinds, for `For` and for `Owns`
unfoldable pub watched_claim_event : Event → Bool
unfolding claim_events
watched_claim_event e =
    claim_events group_kind_netbox_ip_pool e || claim_events group_kind_global_netbox_ip_pool e

unfoldable pub watched_address_event : Event → Bool
unfolding address_events
watched_address_event e =
    address_events group_kind_netbox_ip_pool e || address_events group_kind_global_netbox_ip_pool e

-- `annotations.IsPaused(cluster, cluster)`, of an object that may be no cluster
abbrev pub is_paused_cluster : Object → Bool
is_paused_cluster (cluster c) = c.paused
is_paused_cluster o = false

abbrev pub is_running_cluster : Object → Bool
is_running_cluster (cluster c) = not c.paused
is_running_cluster o = false

-- The predicate of `Watches(&clusterv1.Cluster{}, …)` in `ClaimReconciler.SetupWithManager`; a
-- `predicate.Funcs` without a function for an event lets it pass.
unfoldable pub watched_cluster_event : Event → Bool
watched_cluster_event (create o) = is_running_cluster o
watched_cluster_event (delete o) = is_running_cluster o
watched_cluster_event (generic o) = true
watched_cluster_event (update old new) = is_paused_cluster old && is_running_cluster new
