-- ===== src/Tests/Client.antt =====
-- Examples of the NetBox client, over a network that answers by the method of a request.
use cluster_api_ipam_provide.Netbox.Numbers.{format_int}
use cluster_api_ipam_provide.Base.Dict.{lookup, insert}
use cluster_api_ipam_provide.Base.{
  ℕ, ◌≤◌, String, not, ◌&&◌, List, [], ◌∷◌, none, some, ok, err, ◌≡◌, ◌↔◌, ◌⊎◌, refl, arith,
}
use cluster_api_ipam_provide.Base.Text.{is_empty, trim_space}
use cluster_api_ipam_provide.Base.Errors.{no_available_ip}
use cluster_api_ipam_provide.Base.Int.{pos}
use cluster_api_ipam_provide.Api.{NetBoxPrefixReference}
use cluster_api_ipam_provide.Netbox.Gateway.{text}
use cluster_api_ipam_provide.Netbox.Wire.{
  Network, Response, Method, get, post, delete, NetBoxTag, NetBoxIpAddress, AllocationRequest,
}
use cluster_api_ipam_provide.Netbox.Client.{
  ApiClient, list_all, get_page, post_request, http_request,
}
use cluster_api_ipam_provide.Netbox.Client.Pages.{Pages, list_all_iff}
use cluster_api_ipam_provide.Netbox.Client.Tags.{append_unique, seen, ensure_tags, ensure_tag}
use cluster_api_ipam_provide.Netbox.Client.Tags.Unique.{Distinct, names, append_unique_exact}
use cluster_api_ipam_provide.Netbox.Client.Addresses.{
  map_ip_address, first_with_claim_uid, allocate_ip_address, delete_ip_address, allocation_payload,
}
use cluster_api_ipam_provide.Netbox.Client.Addresses.Own.{
  allocated_is_found, Allocation, allocate_ip_address_recorded,
}
use cluster_api_ipam_provide.Netbox.Client.Addresses.Answers.{
  IsFull, allocate_ip_address-IsFull_iff, delete_ip_address_iff,
}
use cluster_api_ipam_provide.Netbox.Client.Addresses.Parts.{with_length, map_ip_address-candidate}
use cluster_api_ipam_provide.Controller.Handler.{netbox_address_candidates}
use cluster_api_ipam_provide.Tests.World.{set_address, ascii, answer}

abbrev pub own_tag : NetBoxTag
own_tag = record { name = "owner"; slug = "owner" }

abbrev pub own_record : NetBoxIpAddress
own_record = record {
  id = pos 5;
  address = "10.0.0.9/24";
  dns_name = "";
  custom_fields = ("uid", text "u-1") ∷ [];
}

abbrev other_record : NetBoxIpAddress
other_record = record own_record { id = pos 4; custom_fields = [] }

abbrev pub response : ℕ → String → Response
response code body = record { status_code = code; status = ""; body = ok body }

abbrev responses : Response → Method → Response
responses posted get = response 200 "x"
responses posted post = posted
responses posted delete = response 404 ""

-- A network on which an allocation is answered by `posted`.
abbrev network : Response → Network ℕ
network posted = record {
  send = λ request. answer (ok (responses posted request.method));
  check_url = λ url. ok tt;
  parse_url = λ url. ok (record { scheme = "https"; host = "netbox"; path = url; query = [] });
  decode_prefixes = λ body. ok (record {
    next = "";
    results = record { id = pos 9; prefix = "10.0.0.0/24"; custom_fields = [] } ∷ [];
  });
  decode_addresses = λ body. ok (record { next = ""; results = own_record ∷ [] });
  decode_tags = λ body. ok (record { next = ""; results = own_tag ∷ [] });
  decode_custom_fields = λ body. ok (record { next = ""; results = [] });
  decode_tag = λ body. ok own_tag;
  decode_created = λ body. ok (own_record ∷ []);
  unicode = ascii;
  build = record { git_version = "dev"; os = "linux"; arch = "amd64"; go_version = "go" };
}

abbrev full_network : Network ℕ
full_network = network (response 409 "no available ip")

abbrev pub free_network : Network ℕ
free_network = network (response 201 "x")

abbrev pub api : ApiClient
api = record { base_url = "https://netbox"; token = "t" }

abbrev request : AllocationRequest
request = record {
  metadata = record {
    tenant_id = none;
    vrf_id = none;
    dns_name = "";
    tags = [];
    custom_fields = ("uid", "mine") ∷ [];
  };
  ownership_tag = "owner";
  claim_uid_field_name = "uid";
  claim_uid = "u-1";
  description = "ns/c";
  status = "active";
}

list_all_iff_example :
    (list_all free_network api free_network.decode_tags 2 "/api/extras/tags/" [] 0
      ≡ (ok (own_tag ∷ []), 1))
    ↔ ((n : ℕ) × (n ≤ 2)
        × Pages free_network api free_network.decode_tags 1 n 0 "/api/extras/tags/" []
            (own_tag ∷ []))
list_all_iff_example =
    list_all_iff free_network api free_network.decode_tags 2 "/api/extras/tags/" [] (own_tag ∷ []) 0
      1

append_unique_exact_example :
    Distinct (append_unique (" a" ∷ "b" ∷ []) ("a" ∷ []))
    × (seen "a" (append_unique (" a" ∷ "b" ∷ []) ("a" ∷ []))
        ≡ (not (is_empty "a") && names "a" (" a" ∷ "b" ∷ "a" ∷ [])))
append_unique_exact_example = append_unique_exact (" a" ∷ "b" ∷ []) ("a" ∷ []) "a"

allocated_is_found_example :
    first_with_claim_uid "uid" "u-1" (other_record ∷ own_record ∷ [])
    ≡ some (map_ip_address own_record)
unfolding lookup allocation_payload insert
allocated_is_found_example =
    allocated_is_found request (own_tag ∷ []) (other_record ∷ []) [] own_record refl
      ((λ e. absurd (cc)), tt)

allocate_ip_address_recorded_example :
    Allocation free_network api 2 (pos 8) request 0 2 (map_ip_address own_record)
unfolding allocate_ip_address ensure_tags append_unique trim_space ensure_tag list_all get_page
    post_request
allocate_ip_address_recorded_example =
    allocate_ip_address_recorded free_network api 2 (pos 8) request 0 2 (map_ip_address own_record)
      refl

allocate_ip_address-IsFull_iff_example :
    (allocate_ip_address full_network api 2 (pos 8) request 0 ≡ (err no_available_ip, 2))
    ↔ IsFull full_network api 2 (response 409 "no available ip") "no available ip"
unfolding ensure_tags append_unique trim_space ensure_tag list_all get_page
allocate_ip_address-IsFull_iff_example =
    allocate_ip_address-IsFull_iff full_network api 2 (pos 8) request (own_tag ∷ []) 0 1 2
      (response 409 "no available ip") "no available ip" refl refl refl refl refl

abbrev missing : Response
missing = response 404 ""

delete_ip_address_iff_example :
    (delete_ip_address free_network api 2 (pos 5) 0 ≡ (ok tt, 1))
    ↔ ((missing.status_code ≡ 204) ⊎ (missing.status_code ≡ 404))
unfolding http_request
delete_ip_address_iff_example =
    delete_ip_address_iff free_network api 2 (pos 5) 0 1 missing "" refl refl refl

abbrev references : List NetBoxPrefixReference
references =
    record { id = some (pos 7); cidr = ""; vrf_id = none; gateway = "" }
    ∷ record { id = none; cidr = "10.0.0.0/24"; vrf_id = none; gateway = "" }
    ∷ []

map_ip_address-candidate_example :
    (netbox_address_candidates (some set_address)
      ≡ with_length "10.0.0.9" (pos 24) ∷ "10.0.0.9" ∷ [])
    × ((map_ip_address own_record).address ≡ "10.0.0.9")
    × ((map_ip_address own_record).prefix ≡ pos 24)
unfolding format_int trim_space
map_ip_address-candidate_example =
    map_ip_address-candidate set_address (pos 24) own_record
      (refl, (refl, (refl, (refl, (refl, (refl, (refl, (refl, tt)))))))) refl (ground arith) refl
      refl refl
