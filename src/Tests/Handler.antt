-- ===== src/Tests/Handler.antt =====
-- Examples of the claim handler, and of the entries that are kept for a pool's prefixes.
use cluster_api_ipam_provide.Netbox.Metadata.{effective_pool_metadata}
use cluster_api_ipam_provide.Base.Dict.{lookup}
use cluster_api_ipam_provide.Netbox.Config.{load_connection_config, connection_config}
use cluster_api_ipam_provide.Base.{ℕ, [], ◌∷◌, none, ok, err, ◌≡◌, ◌↔◌, refl}
use cluster_api_ipam_provide.Base.Errors.{api}
use cluster_api_ipam_provide.Base.Int.{pos}
use cluster_api_ipam_provide.Netbox.Wire.{AllocationRequest}
use cluster_api_ipam_provide.Controller.Handler.{
  ensure_address, allocate_from, with_address, Adapter, allocation_request, obtain_address, connect,
  allocate_new, with_gateway, gateway_details, netbox_address_candidates,
}
use cluster_api_ipam_provide.Controller.Releasing.{
  release_address, release_from_netbox, find_existing_netbox_ip, find_by_candidates,
}
use cluster_api_ipam_provide.Controller.Handler.Ensure.{
  Search, Source, allocate_from_iff, ensure_address_source,
}
use cluster_api_ipam_provide.Controller.Releasing.Released.{Released, release_address-Released}
use cluster_api_ipam_provide.Controller.ResolvedPrefixes.{
  build_resolved_prefixes, gateway_for_prefix_id,
}
use cluster_api_ipam_provide.Controller.ResolvedPrefixes.Aligned.{
  Entries, build_resolved_prefixes_iff,
}
use cluster_api_ipam_provide.Tests.World.{
  netip, a_spec, a_pool, a_claim, unset_address, allocated, client, adapter,
}

abbrev request : AllocationRequest
request =
    allocation_request adapter a_claim a_pool
      (record { tenant_id = none; vrf_id = none; dns_name = ""; tags = []; custom_fields = [] })

ensure_address_source_example :
    Source adapter a_claim a_pool unset_address
      (with_address adapter a_claim a_pool unset_address allocated "g8")
      0
      5
unfolding ensure_address obtain_address connect load_connection_config connection_config lookup
    allocate_new effective_pool_metadata allocate_from with_gateway gateway_for_prefix_id
    gateway_details
ensure_address_source_example =
    ensure_address_source adapter a_claim a_pool unset_address
      (with_address adapter a_claim a_pool unset_address allocated "g8") 0 5 refl refl

allocate_from_iff_example :
    (allocate_from adapter a_claim a_pool client request (pos 7 ∷ pos 8 ∷ []) 0
      ≡ (ok (pos 8, allocated), 2))
    ↔ Search adapter a_claim a_pool client request (ok (pos 8, allocated)) 2 0 (pos 7 ∷ pos 8 ∷ [])
allocate_from_iff_example =
    allocate_from_iff adapter a_claim a_pool client request (pos 7 ∷ pos 8 ∷ []) 0 2
      (ok (pos 8, allocated))

-- NetBox cannot be reached with the settings.
abbrev refused : Adapter ℕ
refused = record adapter { new_client = λ cfg. err (api 403 "403 Forbidden" "secret") }

release_address-Released_example : Released adapter a_claim a_pool 0 5
unfolding release_address release_from_netbox connect load_connection_config connection_config
    lookup find_existing_netbox_ip find_by_candidates netbox_address_candidates
release_address-Released_example = release_address-Released adapter a_claim a_pool 0 5 refl

build_resolved_prefixes_iff_example :
    (build_resolved_prefixes netip a_spec
        (record { id = pos 7; cidr = "p7"; custom_fields = [] } ∷ [])
        (pos 7 ∷ [])
      ≡ ok (record { id = pos 7; cidr = "p7"; gateway = "in" } ∷ [], pos 7 ∷ []))
    ↔ Entries netip a_spec
        (record { id = pos 7; cidr = "p7"; custom_fields = [] } ∷ [])
        0
        (pos 7 ∷ [])
        (record { id = pos 7; cidr = "p7"; gateway = "in" } ∷ [])
        (pos 7 ∷ [])
build_resolved_prefixes_iff_example =
    build_resolved_prefixes_iff netip a_spec
      (record { id = pos 7; cidr = "p7"; custom_fields = [] } ∷ []) (pos 7 ∷ [])
      (record { id = pos 7; cidr = "p7"; gateway = "in" } ∷ []) (pos 7 ∷ [])
