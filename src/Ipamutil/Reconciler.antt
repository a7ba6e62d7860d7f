-- ===== src/Ipamutil/Reconciler.antt =====
-- pkg/ipamutil/reconciler.go: what a claim's reconcile is made of.
use cluster_api_ipam_provide.Base.{
  String, not, List, [], ◌∷◌, Option, none, some, Result, ok, err, if◌then◌else◌, Effect, map,
  is_some, map_ok,
}
use cluster_api_ipam_provide.Base.Text.{is_empty}
use cluster_api_ipam_provide.Base.Dict.{lookup, insert}
use cluster_api_ipam_provide.Base.Errors.{Error, is_not_found}
use cluster_api_ipam_provide.Api.{Pool, IpAddressClaim, IpAddress, ConditionStatus}
use cluster_api_ipam_provide.Cluster.{
  Kube, Controllerutil, Requeue, Outcome, Key, normal, LinkedCluster, Mutated,
}
use cluster_api_ipam_provide.Base.Int.{ℤ}

abbrev pub release_address_finalizer : String
release_address_finalizer = "ipam.cluster.x-k8s.io/ReleaseAddress"

abbrev pub protect_address_finalizer : String
protect_address_finalizer = "ipam.cluster.x-k8s.io/ProtectAddress"

abbrev pub cluster_name_label : String
cluster_name_label = "cluster.x-k8s.io/cluster-name"

-- the reasons of the IPAM contract, and `reasonAddressAllocated`, `reasonAddressReleased`
abbrev pub pool_not_ready_reason : String
pool_not_ready_reason = "PoolNotReady"

abbrev pub allocation_failed_reason : String
allocation_failed_reason = "AllocationFailed"

abbrev pub pool_exhausted_reason : String
pool_exhausted_reason = "PoolExhausted"

abbrev pub address_allocated_reason : String
address_allocated_reason = "AddressAllocated"

abbrev pub address_released_reason : String
address_released_reason = "AddressReleased"

-- `(client.Object, *ctrl.Result, error)` of FetchPool
pub record Fetched : Type 0 where
  pub pool : Option Pool
  pub requeue : Option Requeue
  pub error : Option Error

-- The interface `ClaimHandler`. `State` is what a handler keeps between its calls.
pub record ClaimHandler (W : Type 0) : Type 1 where
  pub State : Type 0
  pub start : State
  pub fetch_pool : State → W → Fetched × State × W
  pub ensure_address : State → IpAddress → W → Mutated × W
  pub release_address : State → W → Outcome × W

-- `setClaimReady`: `conditions.Set` of the condition of type Ready
unfoldable pub set_claim_ready :
    IpAddressClaim → ConditionStatus → (reason msg : String) → IpAddressClaim
set_claim_ready claim status reason msg = record claim {
  ready = some (record {
    type = "Ready";
    status = status;
    reason = reason;
    message = msg;
    observed_generation = ℤ.pos 0;
  });
}

abbrev pub done : Outcome
done = record { requeue = none; error = none }

abbrev pub failed : Error → Outcome
failed e = record { requeue = none; error = some e }

-- `client.IgnoreNotFound`, and `err != nil && !apierrors.IsNotFound(err)`
abbrev pub hard_error : Result Error (Unit {0}) → Option Error
hard_error (ok u) = none
hard_error (err e) = if is_not_found e then none else some e

-- `indexClusterName`
unfoldable pub index_cluster_name : IpAddressClaim → List String
index_cluster_name claim =
    if not (is_empty claim.cluster_name)
    then claim.cluster_name ∷ []
    else elim (lookup cluster_name_label claim.labels) [ none ↦ [] | some name ↦ name ∷ [] ]

abbrev pub label_from_claim : IpAddressClaim → IpAddress → IpAddress
label_from_claim claim address = elim (lookup cluster_name_label claim.labels) [
  | none ↦ address
  | some name ↦ record address { labels = insert cluster_name_label name address.labels }
]

module _ {W : Type 0} (kube : Kube W) (util : Controllerutil W) where
  abbrev pub record_normal : (reason action msg : String) → W → W
  record_normal reason action msg w =
      kube.record_event (record { type = normal; reason = reason; action = action; message = msg })
        w

  -- `getLinkedCluster`; `none` where the claim names no cluster
  unfoldable pub get_linked_cluster : IpAddressClaim → Effect W Error (Option LinkedCluster)
  get_linked_cluster claim w =
      if not (is_empty claim.cluster_name)
      then (let (r, w') = kube.get_cluster_by_name claim.namespace claim.cluster_name w in
          (map_ok some r, w'))
      else if is_some (lookup cluster_name_label claim.labels)
      then (let (r, w') = kube.get_cluster_from_metadata claim w in (map_ok some r, w'))
      else (ok none, w)

  -- `clusterToIPClaims`: a list that fails gives no requests
  unfoldable pub cluster_to_ip_claims : String → W → List Key × W
  cluster_to_ip_claims cluster_name w =
      let (r, w') = kube.list_claims cluster_name w in
      elim r [
        | err e ↦ ([], w')
        | ok claims ↦ (
          map (λ (c : IpAddressClaim). record { namespace = c.namespace; name = c.name }) claims,
          w',
        )
      ]
