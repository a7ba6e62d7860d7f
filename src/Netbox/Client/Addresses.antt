-- ===== src/Netbox/Client/Addresses.antt =====
-- `AllocateIPAddress`, `FindIPAddressByClaimUID`, `FindIPAddressByAddress` and `DeleteIPAddress`.
pub mod Answers
pub mod Own
pub mod Parts
use cluster_api_ipam_provide.Base.{
  ℕ, String, Bool, true, false, ◌||◌, ◌&&◌, List, [], ◌∷◌, Option, none, some, ◌<>◌, ◌=ˢ◌, ◌==◌,
  if◌then◌else◌, Effect, pure, fail, lift, wrapping, ◌>>=◌, ◌>>◌, Result, ok, err,
}
use cluster_api_ipam_provide.Base.Text.{is_empty, trim_space, cut, contains}
use cluster_api_ipam_provide.Base.Dict.{Dict, lookup, insert}
use cluster_api_ipam_provide.Base.Errors.{Error, wrap, message, no_available_ip, as_api}
use cluster_api_ipam_provide.Base.Int.{ℤ, pos}
use cluster_api_ipam_provide.Netbox.Gateway.{FieldValue, null, text, other}
use cluster_api_ipam_provide.Netbox.Metadata.{EffectiveMetadata}
use cluster_api_ipam_provide.Netbox.Numbers.{NumError, parse_int32, format_int}
use cluster_api_ipam_provide.Netbox.Slug.{Unicode, to_lower}
use cluster_api_ipam_provide.Netbox.Wire.{
  Network, NetBoxIpAddress, NetBoxTag, AllocatedAddress, AllocationRequest, AddressPayload,
  addresses, delete,
}
use cluster_api_ipam_provide.Netbox.Client.{ApiClient, list_all, post_request, do_request}
use cluster_api_ipam_provide.Netbox.Client.Tags.{append_unique, ensure_tag, ensure_tags}

abbrev pub number_or_zero : Result NumError ℤ → ℤ
number_or_zero (ok n) = n
number_or_zero (err e) = pos 0

abbrev pub parts_of : String → Option (String × String) → String × ℤ
parts_of address none = (address, pos 0)
parts_of address (some (host, length)) = (host, number_or_zero (parse_int32 length))

unfoldable pub map_ip_address : NetBoxIpAddress → AllocatedAddress
map_ip_address ip =
    let address = trim_space ip.address in
    let (host, prefix) = parts_of address (cut b'/' address) in
    record { id = ip.id; address = host; prefix = prefix; dns_name = ip.dns_name }

-- `fmt.Sprint(item.CustomFields[fieldName])`
abbrev pub printed_field : Option FieldValue → String
printed_field none = "<nil>"
printed_field (some null) = "<nil>"
printed_field (some (text s)) = s
printed_field (some (other printed)) = printed

unfoldable pub first_with_claim_uid :
    (field_name claim_uid : String) → List NetBoxIpAddress → Option AllocatedAddress
first_with_claim_uid field_name claim_uid [] = none
first_with_claim_uid field_name claim_uid (item ∷ items) =
    let rest = first_with_claim_uid field_name claim_uid items in
    if printed_field (lookup field_name item.custom_fields) =ˢ claim_uid
    then some (map_ip_address item)
    else rest

unfoldable pub first_with_address : String → List NetBoxIpAddress → Option AllocatedAddress
first_with_address address [] = none
first_with_address address (item ∷ items) =
    let rest = first_with_address address items in
    let mapped = map_ip_address item in
    if trim_space item.address =ˢ address || trim_space mapped.address =ˢ address
    then some mapped
    else rest

unfoldable pub is_no_available_ip_error : Unicode → Error → Bool
is_no_available_ip_error U e = elim (as_api e) [
  | none ↦ false
  | some a ↦
      let body = to_lower U a.body in
      (a.status_code == 400 || a.status_code == 409)
      && (contains body "available ip" || contains body "available addresses")
]

abbrev unless_empty : String → Option String
unless_empty s = if is_empty s then none else some s

-- the body of the request; the claim's UID is written over a custom field of that name
unfoldable pub allocation_payload : AllocationRequest → List NetBoxTag → AddressPayload
allocation_payload req tags = record {
  status = req.status;
  description = req.description;
  custom_fields = insert req.claim_uid_field_name req.claim_uid req.metadata.custom_fields;
  tags = tags;
  dns_name = unless_empty req.metadata.dns_name;
  tenant = req.metadata.tenant_id;
  vrf = req.metadata.vrf_id;
}

abbrev pub first_created : List NetBoxIpAddress → Result Error AllocatedAddress
first_created [] = err no_available_ip
first_created (ip ∷ ips) = ok (map_ip_address ip)

module _ {W : Type 0} (N : Network W) (c : ApiClient) (fuel : ℕ) where
  abbrev pub allocation_error : ℤ → Error → Error
  allocation_error prefix_id e =
      if is_no_available_ip_error N.unicode e
      then no_available_ip
      else wrap ("allocate available ip from prefix " <> format_int prefix_id) e

  unfoldable pub allocate_ip_address : ℤ → AllocationRequest → Effect W Error AllocatedAddress
  unfolding allocation_payload
  allocate_ip_address prefix_id req = do
    tags ←
        wrapping (wrap "ensure tags")
          (ensure_tags N c fuel (append_unique req.metadata.tags (req.ownership_tag ∷ [])))
    created ← wrapping (allocation_error prefix_id) (
        post_request N c N.decode_created []
          ("/api/ipam/prefixes/" <> format_int prefix_id <> "/available-ips/")
          (addresses (allocation_payload req tags ∷ [])) (200 ∷ 201 ∷ []))
    lift (first_created created)

  -- The ownership tag is made to exist, since NetBox refuses to filter by a tag that does not.
  unfoldable pub tagged_addresses :
      (described ownership_tag : String)
      → List (String × String)
      → Effect W Error (List NetBoxIpAddress)
  tagged_addresses described ownership_tag more = do
    wrapping (wrap "ensure ownership tag") (do ensure_tag N c fuel ownership_tag; pure tt)
    wrapping (wrap described) (
        list_all N c N.decode_addresses fuel "/api/ipam/ip-addresses/"
          (("tag", ownership_tag) ∷ more))

  unfoldable pub find_ip_address_by_claim_uid :
      (ownership_tag field_name claim_uid : String) → Effect W Error (Option AllocatedAddress)
  unfolding tagged_addresses
  find_ip_address_by_claim_uid ownership_tag field_name claim_uid = do
    results ← tagged_addresses "list IP addresses" ownership_tag []
    pure (first_with_claim_uid field_name claim_uid results)

  unfoldable pub find_ip_address_by_address :
      (ownership_tag address : String) → Effect W Error (Option AllocatedAddress)
  unfolding tagged_addresses
  find_ip_address_by_address ownership_tag address = do
    results ←
        tagged_addresses "list IP addresses by address" ownership_tag (("address", address) ∷ [])
    pure (first_with_address address results)

  -- the test of the error after `do`
  abbrev pub deletion_error : ℤ → Result Error (Unit {0}) → Result Error (Unit {0})
  deletion_error id (ok u) = ok u
  deletion_error id (err e) = elim (as_api e) [
    | none ↦ err (wrap ("delete ip address " <> format_int id) e)
    | some a ↦
        if a.status_code == 404 then ok tt else err (wrap ("delete ip address " <> format_int id) e)
  ]

  unfoldable pub delete_ip_address : ℤ → Effect W Error (Unit {0})
  delete_ip_address id w =
      let path = "/api/ipam/ip-addresses/" <> format_int id <> "/" in
      let (r, w') = do_request N c (λ _. ok tt) tt delete path [] none (204 ∷ 404 ∷ []) w in
      (deletion_error id r, w')
