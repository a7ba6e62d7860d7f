-- ===== src/Controller/Pools.antt =====
-- internal/controller/pool_controller.go: the status of a pool and its finalizer, for both kinds.
pub mod Count
pub mod Lifecycle
pub mod Warm
pub mod Stale
pub mod Listed
pub mod Reconciling
pub mod Course
use cluster_api_ipam_provide.Base.{
  ℕ, String, Bool, true, false, not, ◌||◌, List, [], ◌∷◌, Option, none, some, Result, ok, err, ◌<>◌,
  if◌then◌else◌, Effect, pure, lift, wrapping, ◌>>=◌, map_err, length, ◌==◌,
}
use cluster_api_ipam_provide.Base.Text.{is_empty}
use cluster_api_ipam_provide.Base.Dict.{insert}
use cluster_api_ipam_provide.Base.Errors.{
  Error, wrap, message, external, is_not_found, error_text, aggregate,
}
use cluster_api_ipam_provide.Base.Int.{ℤ, ◌==ℤ◌}
use cluster_api_ipam_provide.Api.{
  Pool, NetBoxIpPoolStatus, ResolvedPrefix, Condition, ConditionStatus, condition_true,
  condition_false, IpAddress, IpPoolReference, group, netbox_ip_pool_kind,
  global_netbox_ip_pool_kind,
}
use cluster_api_ipam_provide.Cluster.{Kube, Controllerutil, Event, warning, Outcome, Key, recorded}
use cluster_api_ipam_provide.Netbox.Numbers.{format_nat, format_int, parse_int32, NumError}
use cluster_api_ipam_provide.Netbox.Config.{ConnectionConfig, load_connection_config}
use cluster_api_ipam_provide.Netbox.Gateway.{Netip}
use cluster_api_ipam_provide.Netbox.Wire.{Client}
use cluster_api_ipam_provide.Netbox.Client.{sanitized_error}
use cluster_api_ipam_provide.Controller.ResolvedPrefixes.{build_resolved_prefixes}
use cluster_api_ipam_provide.Index.{ip_pool_ref_value}

abbrev pub pool_finalizer : String
pool_finalizer = "ipam.cluster.x-k8s.io/pool-protection"

abbrev pub cluster_name_label : String
cluster_name_label = "cluster.x-k8s.io/cluster-name"

unfoldable pub safe_allocated_count : ℕ → Result Error ℤ
safe_allocated_count count =
    map_err
      (λ e.
        wrap ("convert allocated address count " <> format_nat count <> " to int32")
          (external "value out of range"))
      (parse_int32 (format_nat count))

abbrev pub ready_condition : Pool → ConditionStatus → String → String → Condition
ready_condition pool status reason msg = record {
  type = "Ready";
  status = status;
  reason = reason;
  message = msg;
  observed_generation = pool.generation;
}

abbrev pub with_condition : Pool → Condition → Pool
with_condition pool c = record pool { status = record pool.status { conditions = c ∷ [] } }

-- `setConditionFalse`
unfoldable pub set_condition_false : Pool → String → String → Pool
set_condition_false pool reason msg =
    with_condition pool (ready_condition pool condition_false reason msg)

unfoldable pub set_pool_ready_condition : Pool → Option Error → Pool
unfolding set_condition_false
set_pool_ready_condition pool (some e) =
    set_condition_false pool "PrefixResolutionFailed" (error_text e)
set_pool_ready_condition pool none =
    with_condition pool
      (ready_condition pool condition_true "PoolReady" "pool is ready to serve claims")

unfoldable pub ensure_cluster_name_label : Pool → String → Pool
ensure_cluster_name_label pool cluster_name =
    if is_empty cluster_name
    then pool
    else record pool { labels = insert cluster_name_label cluster_name pool.labels }

-- What the pool reconcilers stand on. `recorder` may be nil.
pub record PoolAdapter (W : Type 0) : Type 1 where
  pub kube : Kube W
  pub util : Controllerutil W
  pub netip : Netip
  pub recorder : Option (Event → W → W)
  pub new_client : ConnectionConfig → Result Error (Client W)
  pub request_timeout : ℤ

abbrev pub is_empty_list : {A : Type 0} → List A → Bool
is_empty_list [] = true
is_empty_list (x ∷ xs) = false

abbrev pub with_resolved : Pool → List ℤ → List ResolvedPrefix → Pool
with_resolved pool ids details = record pool {
  status = record pool.status { resolved_prefixes = ids; resolved_prefix_details = details };
}

abbrev pub resolved_or_same : Pool → Result Error Pool → Pool × Option Error
resolved_or_same pool (ok p) = (p, none)
resolved_or_same pool (err e) = (pool, some e)

abbrev pub needs_resolution : (previous : ℤ) → Pool → Bool
needs_resolution previous pool =
    is_empty_list pool.status.resolved_prefixes || not (previous ==ℤ pool.generation)

abbrev pub blocked_error : ℕ → Error
blocked_error n = message ("pool still has " <> format_nat n <> " allocated IPAddresses")

abbrev pub observed : Pool → Pool
observed pool = record pool {
  status = record pool.status { observed_generation = pool.generation };
}

abbrev pub counted : Pool → ℤ → Pool
counted pool allocated = record pool {
  status = record pool.status { addresses = some (record { allocated = allocated }) };
}

module _ {W : Type 0} (P : PoolAdapter W) where
  abbrev pub record_warning : Option (Event → W → W) → (reason action msg : String) → W → W
  record_warning recorder reason action msg w =
      recorded recorder (record { type = warning; reason = reason; action = action; message = msg })
        w

  unfoldable pub warn_in_range : List ℤ → W → W
  warn_in_range [] w = w
  warn_in_range (id ∷ ids) w = warn_in_range ids (
      record_warning P.recorder "GatewayInAllocatableRange" "ResolveGateway"
        ("Gateway for prefix "
          <> format_int id
          <> " lies within its allocatable range; mark it reserved in NetBox so it is not handed out as a normal address")
        w)

  unfoldable pub resolve_prefix_details :
      Client W → Pool → List ℤ → Effect W Error (List ResolvedPrefix)
  resolve_prefix_details client pool prefix_ids = do
    fetched ← wrapping sanitized_error (client.get_prefix_details prefix_ids)
    resolved ← lift (build_resolved_prefixes P.netip pool.spec fetched prefix_ids)
    λ w. (ok resolved.0, warn_in_range resolved.1 w)

  -- `resolvePoolPrefixes`: the pool with its status filled in, or an error with the status as it was
  unfoldable pub resolve_pool_prefixes : Pool → Effect W Error Pool
  resolve_pool_prefixes pool = do
    cfg ←
        wrapping sanitized_error
          (load_connection_config P.kube.get_secret pool.namespace pool.spec.connection_secret_ref)
    client ←
        wrapping sanitized_error
          (lift (P.new_client (record cfg { request_timeout = P.request_timeout })))
    ids ← wrapping sanitized_error (client.resolve_prefix_ids pool.spec.prefixes)
    details ← resolve_prefix_details client pool ids
    pure (with_resolved pool ids details)

  unfoldable pub list_addresses_in_use :
      (namespace kind name : String) → Effect W Error (List IpAddress)
  list_addresses_in_use namespace kind name =
      P.kube.list_addresses
        (ip_pool_ref_value (record { api_group = group; kind = kind; name = name }))
        (if is_empty namespace then none else some namespace)

  unfoldable pub resolve_if_needed : (previous : ℤ) → Pool → W → (Pool × Option Error) × W
  resolve_if_needed previous pool w =
      if needs_resolution previous pool
      then (let (r, w') = resolve_pool_prefixes pool w in (resolved_or_same pool r, w'))
      else ((pool, none), w)

  -- the part of `reconcilePoolStatus` after the Ready condition and the label are set
  unfoldable pub guard_deletion : ℕ → Option Error → Pool → W → (Pool × Option Error) × W
  guard_deletion n resolve_error pool w =
      if not pool.deleting
      then (
        (
          record pool { finalizers = (P.util.add_finalizer pool_finalizer pool.finalizers).0 },
          resolve_error,
        ),
        w,
      )
      else if n == 0
      then (
        (
          record pool { finalizers = (P.util.remove_finalizer pool_finalizer pool.finalizers).0 },
          none,
        ),
        w,
      )
      else (
        (
          set_condition_false pool "DeletionBlocked" (error_text (blocked_error n)),
          some (blocked_error n),
        ),
        record_warning P.recorder "PoolInUse" "BlockPoolDeletion"
            ("Pool deletion is blocked while "
              <> format_nat n
              <> " IPAddresses are still allocated")
            w,
      )

  -- `previous` is the generation that was observed before
  unfoldable pub update_status : (previous : ℤ) → ℕ → Pool → ℤ → W → (Pool × Option Error) × W
  update_status previous n pool allocated w =
      let ((resolved, resolve_error), w') = resolve_if_needed previous (counted pool allocated) w in
      guard_deletion n resolve_error
        (ensure_cluster_name_label (set_pool_ready_condition resolved resolve_error)
          pool.spec.cluster_name)
        w'

  abbrev pub after_counting : ℕ → Pool → Result Error ℤ → W → (Pool × Option Error) × W
  after_counting n pool (err e) w = ((observed pool, some e), w)
  after_counting n pool (ok allocated) w =
      update_status pool.status.observed_generation n (observed pool) allocated w

  abbrev pub after_listing : Pool → Result Error (List IpAddress) → W → (Pool × Option Error) × W
  after_listing pool (err e) w = ((pool, some e), w)
  after_listing pool (ok addresses) w =
      after_counting (length addresses) pool (safe_allocated_count (length addresses)) w

  -- `reconcilePoolStatus`: the pool as it is left, also when an error is returned
  unfoldable pub reconcile_pool_status : String → Pool → W → (Pool × Option Error) × W
  reconcile_pool_status kind pool w =
      let (listed, w') = list_addresses_in_use pool.namespace kind pool.name w in
      after_listing pool listed w'
