-- ===== src/Netbox/Client/Prefixes.antt =====
-- `ResolvePrefixIDs`, `GetPrefixDetails` and `EnsureIPAddressCustomField`.
pub mod Resolution
use cluster_api_ipam_provide.Base.{
  ℕ, String, List, [], ◌∷◌, Option, none, some, map, ◌<>◌, ◌++◌, if◌then◌else◌, Effect, pure, fail,
  lift, wrapping, ◌>>=◌, Result, ok, err,
}
use cluster_api_ipam_provide.Base.Text.{is_empty, trim_space, join}
use cluster_api_ipam_provide.Base.Errors.{Error, wrap, message}
use cluster_api_ipam_provide.Base.Int.{ℤ, ◌==ℤ◌}
use cluster_api_ipam_provide.Api.{NetBoxPrefixReference}
use cluster_api_ipam_provide.Netbox.Numbers.{format_int}
use cluster_api_ipam_provide.Netbox.Wire.{Network, NetBoxPrefix, NetBoxCustomField, PrefixDetail}
use cluster_api_ipam_provide.Netbox.Client.{ApiClient, list_all}

abbrev pub vrf_query : Option ℤ → List (String × String)
vrf_query none = []
vrf_query (some id) = ("vrf_id", format_int id) ∷ []

-- the switch on `len(results)`
unfoldable pub single_prefix : String → List NetBoxPrefix → Result Error ℤ
single_prefix cidr [] = err (message ("no NetBox prefix matches " <> cidr))
single_prefix cidr (p ∷ []) = ok p.id
single_prefix cidr (p ∷ q ∷ ps) = err (message ("prefix reference " <> cidr <> " is ambiguous"))

-- `byID[id]`, where a later prefix overwrites an earlier one
unfoldable pub prefix_by_id : ℤ → List NetBoxPrefix → Option NetBoxPrefix
prefix_by_id id [] = none
prefix_by_id id (p ∷ ps) = elim (prefix_by_id id ps) [
  | some q ↦ some q
  | none ↦ if p.id ==ℤ id then some p else none
]

unfoldable pub details_in_order : List ℤ → List NetBoxPrefix → List PrefixDetail
unfolding prefix_by_id
details_in_order [] results = []
details_in_order (id ∷ ids) results =
    let rest = details_in_order ids results in
    elim (prefix_by_id id results) [
      | none ↦ rest
      | some p ↦
          record { id = p.id; cidr = trim_space p.prefix; custom_fields = p.custom_fields } ∷ rest
    ]

module _ {W : Type 0} (N : Network W) (c : ApiClient) (fuel : ℕ) where
  unfoldable pub resolve_by_cidr : String → Option ℤ → Effect W Error ℤ
  unfolding single_prefix
  resolve_by_cidr cidr vrf_id = do
    results ← wrapping (wrap ("list prefixes for " <> cidr)) (
        list_all N c N.decode_prefixes fuel "/api/ipam/prefixes/"
          (("prefix", cidr) ∷ vrf_query vrf_id))
    lift (single_prefix cidr results)

  abbrev pub id_or_cidr : NetBoxPrefixReference → Option ℤ → Effect W Error ℤ
  id_or_cidr ref (some id) = pure id
  id_or_cidr ref none =
      if is_empty ref.cidr
      then fail (message "prefix reference must include id or cidr")
      else resolve_by_cidr ref.cidr ref.vrf_id

  unfoldable pub resolve_reference : NetBoxPrefixReference → Effect W Error ℤ
  resolve_reference ref = id_or_cidr ref ref.id

  unfoldable pub resolve_prefix_ids : List NetBoxPrefixReference → Effect W Error (List ℤ)
  resolve_prefix_ids [] = pure []
  resolve_prefix_ids (ref ∷ refs) = do
    id ← resolve_reference ref
    ids ← resolve_prefix_ids refs
    pure (id ∷ ids)

  unfoldable pub get_prefix_details : List ℤ → Effect W Error (List PrefixDetail)
  get_prefix_details [] = pure []
  get_prefix_details (id ∷ ids) = do
    results ← wrapping (wrap "list prefix details") (
        list_all N c N.decode_prefixes fuel "/api/ipam/prefixes/"
          (("id__in", join "," (map format_int (id ∷ ids))) ∷ []))
    pure (details_in_order (id ∷ ids) results)

  abbrev found_field : String → List NetBoxCustomField → Result Error (Unit {0})
  found_field name [] =
      err (message ("NetBox custom field " <> name <> " for ipam.ipaddress does not exist"))
  found_field name (f ∷ fs) = ok tt

  unfoldable pub ensure_ip_address_custom_field : String → Effect W Error (Unit {0})
  ensure_ip_address_custom_field name = do
    results ← wrapping (wrap "list custom fields") (
        list_all N c N.decode_custom_fields fuel "/api/extras/custom-fields/"
          (("name", name) ∷ ("object_type", "ipam.ipaddress") ∷ []))
    lift (found_field name results)
