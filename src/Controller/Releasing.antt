-- ===== src/Controller/Releasing.antt =====
-- `ReleaseAddress` and `findExistingNetBoxIP` of internal/controller/ipaddressclaim_controller.go.
pub mod Released
use cluster_api_ipam_provide.Base.{
  ℕ, String, Bool, true, false, List, [], ◌∷◌, Option, none, some, Result, ok, err, ◌<>◌, ◌=ˢ◌,
  if◌then◌else◌, Effect, pure, fail, lift, wrapping, ◌>>=◌, ◌>>◌,
}
use cluster_api_ipam_provide.Base.Text.{is_empty, join}
use cluster_api_ipam_provide.Base.Dict.{Dict}
use cluster_api_ipam_provide.Base.Errors.{Error, message, is_not_found, is_no_available_ip}
use cluster_api_ipam_provide.Base.Int.{ℤ}
use cluster_api_ipam_provide.Api.{
  Pool, NetBoxIpPoolSpec, ResolvedPrefix, IpAddressClaim, IpAddress, netbox_ip_pool_kind,
  global_netbox_ip_pool_kind,
}
use cluster_api_ipam_provide.Cluster.{Kube, Requeue}
use cluster_api_ipam_provide.Netbox.Numbers.{format_int}
use cluster_api_ipam_provide.Netbox.Config.{ConnectionConfig, load_connection_config}
use cluster_api_ipam_provide.Netbox.Defaults.{
  ownership_tag, claim_uid_custom_field, ip_address_status,
}
use cluster_api_ipam_provide.Netbox.Gateway.{Netip}
use cluster_api_ipam_provide.Netbox.Metadata.{EffectiveMetadata, effective_pool_metadata}
use cluster_api_ipam_provide.Netbox.Wire.{Client, AllocationRequest, AllocatedAddress, PrefixDetail}
use cluster_api_ipam_provide.Netbox.Client.{sanitized_error}
use cluster_api_ipam_provide.Controller.ResolvedPrefixes.{
  build_resolved_prefixes, gateway_for_prefix_id, gateway_for_address,
}
use cluster_api_ipam_provide.Controller.Handler.{
  Adapter, Failure, plain, sanitized, if_found, netbox_address_candidates,
  missing_address_requeue_after, connect, find_own,
}

module _ {W : Type 0} (A : Adapter W) (claim : IpAddressClaim) where
  module _ (pool : Pool) where
    abbrev pub or_next :
        Effect W Error (Option AllocatedAddress)
        → Option AllocatedAddress
        → Effect W Error (Option AllocatedAddress)
    or_next rest (some a) = pure (some a)
    or_next rest none = rest

    unfoldable pub find_by_candidates :
        Client W → List String → Effect W Error (Option AllocatedAddress)
    find_by_candidates client [] = pure none
    find_by_candidates client (candidate ∷ candidates) = do
      found ← client.find_ip_address_by_address (ownership_tag pool.spec) candidate
      or_next (find_by_candidates client candidates) found

    abbrev pub or_by_candidates :
        Client W
        → Option IpAddress
        → Option AllocatedAddress
        → Effect W Error (Option AllocatedAddress)
    or_by_candidates client k8s_address (some a) = pure (some a)
    or_by_candidates client k8s_address none =
        find_by_candidates client (netbox_address_candidates k8s_address)

    -- `findExistingNetBoxIP`
    unfoldable pub find_existing_netbox_ip :
        Client W → Option IpAddress → Effect W Error (Option AllocatedAddress)
    find_existing_netbox_ip client k8s_address = do
      found ← find_own A claim pool client
      or_by_candidates client k8s_address found

    abbrev pub unlocated : IpAddress → Failure
    unlocated k8s_address = record {
      requeue = some (record { after = missing_address_requeue_after });
      cause = message (
          "unable to locate NetBox IP for claim "
          <> claim.namespace
          <> "/"
          <> claim.name
          <> " with uid "
          <> claim.uid
          <> " and address candidates ["
          <> join " " (netbox_address_candidates (some k8s_address))
          <> "]");
    }

    abbrev pub without_record : Option IpAddress → Effect W Failure (Unit {0})
    without_record none = pure tt
    without_record (some a) = fail (unlocated a)

    abbrev pub delete_or_report :
        Client W → Option IpAddress → Option AllocatedAddress → Effect W Failure (Unit {0})
    delete_or_report client k8s_address none = without_record k8s_address
    delete_or_report client k8s_address (some a) = wrapping plain (client.delete_ip_address a.id)

    -- `k8sIPAddress`
    abbrev pub read_address : Effect W Failure (Option IpAddress)
    read_address =
        wrapping plain
          (λ w. let (r, w') = A.kube.get_address claim.namespace claim.name w in (if_found r, w'))

    unfoldable pub release_from_netbox : Effect W Failure (Unit {0})
    release_from_netbox = do
      k8s_address ← read_address
      client ← wrapping plain (connect A claim pool)
      found ← wrapping plain (find_existing_netbox_ip client k8s_address)
      delete_or_report client k8s_address found

  -- `ReleaseAddress`; the pool is `none` while FetchPool has not found one
  unfoldable pub release_address : Option Pool → Effect W Failure (Unit {0})
  release_address none = pure tt
  release_address (some pool) = wrapping sanitized (release_from_netbox pool)
