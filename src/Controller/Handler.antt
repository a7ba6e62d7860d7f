-- ===== src/Controller/Handler.antt =====
-- `FetchPool` and `EnsureAddress` of the claim handler (internal/controller/ipaddressclaim_controller.go).
pub mod Ensure
pub mod Retry
pub mod Reading
use cluster_api_ipam_provide.Base.{
  ℕ, String, Bool, true, false, List, [], ◌∷◌, Option, none, some, Result, ok, err, ◌<>◌, ◌=ˢ◌,
  if◌then◌else◌, Effect, pure, fail, lift, wrapping, ◌>>=◌, ◌>>◌,
}
use cluster_api_ipam_provide.Base.Text.{is_empty, join}
use cluster_api_ipam_provide.Base.Dict.{Dict}
use cluster_api_ipam_provide.Base.Errors.{Error, message, is_not_found, is_no_available_ip}
use cluster_api_ipam_provide.Base.Int.{ℤ}
use cluster_api_ipam_provide.Api.{
  Pool, NetBoxIpPoolSpec, ResolvedPrefix, IpAddressClaim, IpAddress, netbox_ip_pool_kind,
  global_netbox_ip_pool_kind,
}
use cluster_api_ipam_provide.Cluster.{Kube, Requeue}
use cluster_api_ipam_provide.Netbox.Numbers.{format_int}
use cluster_api_ipam_provide.Netbox.Config.{ConnectionConfig, load_connection_config}
use cluster_api_ipam_provide.Netbox.Defaults.{
  ownership_tag, claim_uid_custom_field, ip_address_status,
}
use cluster_api_ipam_provide.Netbox.Gateway.{Netip}
use cluster_api_ipam_provide.Netbox.Metadata.{EffectiveMetadata, effective_pool_metadata}
use cluster_api_ipam_provide.Netbox.Wire.{Client, AllocationRequest, AllocatedAddress, PrefixDetail}
use cluster_api_ipam_provide.Netbox.Client.{sanitized_error}
use cluster_api_ipam_provide.Controller.ResolvedPrefixes.{
  build_resolved_prefixes, gateway_for_prefix_id, gateway_for_address,
}

abbrev pub pool_exhausted_requeue_after : ℕ
pool_exhausted_requeue_after = 15

abbrev pub missing_address_requeue_after : ℕ
missing_address_requeue_after = 5

-- A result `(*ctrl.Result, error)` with an error; `requeue` is the first part.
pub record Failure : Type 0 where
  pub requeue : Option Requeue
  pub cause : Error

abbrev pub plain : Error → Failure
plain e = record { requeue = none; cause = e }

-- the deferred function of EnsureAddress and ReleaseAddress
abbrev pub sanitized : Failure → Failure
sanitized f = record { requeue = f.requeue; cause = sanitized_error f.cause }

abbrev pub exhausted : Failure
exhausted = record {
  requeue = some (record { after = pool_exhausted_requeue_after });
  cause = message "pool exhausted";
}

-- `netboxAddressCandidates`; the address is `none` when the object was not found
unfoldable pub netbox_address_candidates : Option IpAddress → List String
netbox_address_candidates none = []
netbox_address_candidates (some a) = if is_empty a.address then [] else elim a.prefix [
  | none ↦ a.address ∷ []
  | some length ↦ (a.address <> "/" <> format_int length) ∷ a.address ∷ []
]

-- What the adapter hands to every handler.
pub record Adapter (W : Type 0) : Type 1 where
  pub kube : Kube W
  pub netip : Netip
  -- `json.Unmarshal` of an object of strings
  pub unmarshal : String → Result Error (Dict String)
  pub new_client : ConnectionConfig → Result Error (Client W)
  pub request_timeout : ℤ

-- `client.IgnoreNotFound` on a Get: `none` is the object that stays empty
abbrev pub if_found : {A : Type 0} → Result Error A → Result Error (Option A)
if_found (ok a) = ok (some a)
if_found (err e) = if is_not_found e then ok none else err e

module _ {W : Type 0} (A : Adapter W) (claim : IpAddressClaim) where
  -- `FetchPool`. Neither branch gives a result for the queue.
  unfoldable pub fetch_pool : Effect W Error Pool
  fetch_pool =
      if claim.pool_ref.kind =ˢ netbox_ip_pool_kind
      then A.kube.get_netbox_ip_pool claim.namespace claim.pool_ref.name
      else if claim.pool_ref.kind =ˢ global_netbox_ip_pool_kind
      then A.kube.get_global_netbox_ip_pool claim.pool_ref.name
      else fail (message ("unsupported pool kind " <> claim.pool_ref.kind))

  module _ (pool : Pool) where
    -- the settings and the client, as both operations begin
    unfoldable pub connect : Effect W Error (Client W)
    connect = do
      cfg ← load_connection_config A.kube.get_secret pool.namespace pool.spec.connection_secret_ref
      lift (A.new_client (record cfg { request_timeout = A.request_timeout }))

    -- the search for NetBox's record of the claim, in both operations
    abbrev pub find_own : Client W → Effect W Error (Option AllocatedAddress)
    find_own client =
        client.find_ip_address_by_claim_uid (ownership_tag pool.spec)
          (claim_uid_custom_field pool.spec) claim.uid

    abbrev or_nothing : Result Error (List ResolvedPrefix × List ℤ) → List ResolvedPrefix
    or_nothing (ok found) = found.0
    or_nothing (err e) = []

    abbrev built : Client W → List ℤ → Result Error (List PrefixDetail) → List ResolvedPrefix
    built client ids (err e) = []
    built client ids (ok details) =
        or_nothing (build_resolved_prefixes A.netip pool.spec details ids)

    -- `gatewayDetails` never fails: what goes wrong is logged, and the details are nil.
    unfoldable pub live_details : Client W → List ℤ → W → List ResolvedPrefix × W
    live_details client ids w =
        let (fetched, w') = client.get_prefix_details ids w in (built client ids fetched, w')

    abbrev pub after_resolving : Client W → Result Error (List ℤ) → W → List ResolvedPrefix × W
    after_resolving client (err e) w = ([], w)
    after_resolving client (ok ids) w = live_details client ids w

    -- with no IDs at hand they are resolved first
    unfoldable pub details_of : Client W → List ℤ → W → List ResolvedPrefix × W
    details_of client [] w =
        let (resolved, w') = client.resolve_prefix_ids pool.spec.prefixes w in
        after_resolving client resolved w'
    details_of client (i ∷ is) w = live_details client (i ∷ is) w

    abbrev pub cached_or : Client W → List ℤ → List ResolvedPrefix → W → List ResolvedPrefix × W
    cached_or client ids [] w = details_of client ids w
    cached_or client ids (d ∷ ds) w = (d ∷ ds, w)

    unfoldable pub gateway_details : Client W → List ℤ → W → List ResolvedPrefix × W
    gateway_details client ids w = cached_or client ids pool.status.resolved_prefix_details w

    abbrev pub with_address : IpAddress → AllocatedAddress → String → IpAddress
    with_address address a gateway = record address {
      address = a.address;
      prefix = some a.prefix;
      gateway = gateway;
    }

    -- a NetBox address that an earlier, interrupted reconcile left behind
    unfoldable pub reuse : Client W → IpAddress → AllocatedAddress → Effect W Failure IpAddress
    reuse client address existing w =
        let (details, w') = gateway_details client pool.status.resolved_prefixes w in
        (
          ok (with_address address existing (gateway_for_address A.netip details existing.address)),
          w',
        )

    abbrev pub allocation_request : EffectiveMetadata → AllocationRequest
    allocation_request metadata = record {
      metadata = metadata;
      ownership_tag = ownership_tag pool.spec;
      claim_uid_field_name = claim_uid_custom_field pool.spec;
      claim_uid = claim.uid;
      description = claim.namespace <> "/" <> claim.name;
      status = ip_address_status pool.spec;
    }

    abbrev pub next_prefix :
        ℤ
        → Effect W Failure (ℤ × AllocatedAddress)
        → Result Error AllocatedAddress
        → Effect W Failure (ℤ × AllocatedAddress)
    next_prefix prefix_id rest (ok a) w = (ok (prefix_id, a), w)
    next_prefix prefix_id rest (err e) w =
        if is_no_available_ip e then rest w else (err (plain e), w)

    -- the loop over the prefixes: the first that has a free address
    unfoldable pub allocate_from :
        Client W → AllocationRequest → List ℤ → Effect W Failure (ℤ × AllocatedAddress)
    allocate_from client request [] w = (err exhausted, w)
    allocate_from client request (id ∷ ids) w =
        let (r, w') = client.allocate_ip_address id request w in
        next_prefix id (allocate_from client request ids) r w'

    -- the pool's cached prefixes, or those resolved now
    abbrev pub prefix_ids : Client W → Effect W Error (List ℤ)
    prefix_ids client = elim pool.status.resolved_prefixes [
      | i ∷ is ↦ pure pool.status.resolved_prefixes
      | [] ↦ client.resolve_prefix_ids pool.spec.prefixes
    ]

    unfoldable pub with_gateway :
        Client W → List ℤ → IpAddress → ℤ × AllocatedAddress → Effect W Failure IpAddress
    with_gateway client ids address allocation w =
        let (details, w') = gateway_details client ids w in
        (ok (with_address address allocation.1 (gateway_for_prefix_id details allocation.0)), w')

    unfoldable pub allocate_new : Client W → IpAddress → Effect W Failure IpAddress
    allocate_new client address = do
      wrapping plain (client.ensure_ip_address_custom_field (claim_uid_custom_field pool.spec))
      ids ← wrapping plain (prefix_ids client)
      metadata ←
          wrapping plain (
            lift
              (effective_pool_metadata A.unmarshal pool.spec.metadata_defaults claim.annotations))
      allocation ← allocate_from client (allocation_request metadata) ids
      with_gateway client ids address allocation

    abbrev pub reuse_or_allocate :
        Client W → IpAddress → Option AllocatedAddress → Effect W Failure IpAddress
    reuse_or_allocate client address (some existing) = reuse client address existing
    reuse_or_allocate client address none = allocate_new client address

    -- `EnsureAddress` after its first test, before the deferred function
    unfoldable pub obtain_address : IpAddress → Effect W Failure IpAddress
    obtain_address address = do
      client ← wrapping plain connect
      existing ← wrapping plain (find_own client)
      reuse_or_allocate client address existing

    unfoldable pub ensure_address : IpAddress → Effect W Failure IpAddress
    ensure_address address =
        if is_empty address.address
        then wrapping sanitized (obtain_address address)
        else pure address
