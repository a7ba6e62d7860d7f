-- ===== src/Netbox/Defaults.antt =====
-- internal/netbox/defaults.go: what a pool that leaves a name unset gets.
use cluster_api_ipam_provide.Base.{String, if◌then◌else◌}
use cluster_api_ipam_provide.Base.Text.{is_empty}
use cluster_api_ipam_provide.Api.{NetBoxIpPoolSpec}

abbrev pub default_ownership_tag : String
default_ownership_tag = "cluster-api-ipam-provider-netbox"

abbrev pub default_claim_uid_custom_field : String
default_claim_uid_custom_field = "cluster_api_claim_uid"

abbrev pub default_ip_address_status : String
default_ip_address_status = "active"

unfoldable pub ownership_tag : NetBoxIpPoolSpec → String
ownership_tag spec =
    if is_empty spec.ownership_tag then default_ownership_tag else spec.ownership_tag

unfoldable pub claim_uid_custom_field : NetBoxIpPoolSpec → String
claim_uid_custom_field spec =
    if is_empty spec.claim_uid_custom_field
    then default_claim_uid_custom_field
    else spec.claim_uid_custom_field

unfoldable pub ip_address_status : NetBoxIpPoolSpec → String
ip_address_status spec =
    if is_empty spec.ip_address_status then default_ip_address_status else spec.ip_address_status
