-- ===== src/Index.antt =====
-- internal/index: the keys by which addresses and claims are indexed by their pool.
use cluster_api_ipam_provide.Base.{String, List, [], ◌∷◌, ◌<>◌}
use cluster_api_ipam_provide.Api.{IpPoolReference, IpAddress, IpAddressClaim}

-- `IPPoolRefValue`
unfoldable pub ip_pool_ref_value : IpPoolReference → String
ip_pool_ref_value ref = ref.kind <> "/" <> ref.name

unfoldable pub ip_address_by_combined_pool_ref : IpAddress → List String
unfolding ip_pool_ref_value
ip_address_by_combined_pool_ref ip = ip_pool_ref_value ip.pool_ref ∷ []

unfoldable pub ip_address_claim_by_combined_pool_ref : IpAddressClaim → List String
unfolding ip_pool_ref_value
ip_address_claim_by_combined_pool_ref claim = ip_pool_ref_value claim.pool_ref ∷ []
