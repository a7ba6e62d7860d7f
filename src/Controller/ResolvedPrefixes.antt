-- ===== src/Controller/ResolvedPrefixes.antt =====
-- `buildResolvedPrefixes` of internal/controller/pool_controller.go, and the two searches of
-- internal/controller/ipaddressclaim_controller.go in what it builds.
pub mod Parts
pub mod Aligned
use cluster_api_ipam_provide.Base.{
  ℕ, zero, suc, ◌+◌, String, Bool, true, false, ◌||◌, List, [], ◌∷◌, Option, none, some, Result, ok,
  err, ◌>>=ʳ◌ as ◌>>=◌, ◌<>◌, if◌then◌else◌, map_err, get_elem?,
}
use cluster_api_ipam_provide.Base.Text.{is_empty}
use cluster_api_ipam_provide.Base.Errors.{Error, wrap}
use cluster_api_ipam_provide.Base.Int.{ℤ, ◌==ℤ◌}
use cluster_api_ipam_provide.Api.{NetBoxIpPoolSpec, NetBoxPrefixReference, ResolvedPrefix}
use cluster_api_ipam_provide.Netbox.Numbers.{format_int}
use cluster_api_ipam_provide.Netbox.Gateway.{Netip, resolve_gateway, custom_field_string}
use cluster_api_ipam_provide.Netbox.Wire.{PrefixDetail}

-- `detailByID[id]`: a later detail overwrites an earlier one
unfoldable pub detail_by_id : ℤ → List PrefixDetail → Option PrefixDetail
detail_by_id id [] = none
detail_by_id id (d ∷ ds) = elim (detail_by_id id ds) [
  | some e ↦ some e
  | none ↦ if d.id ==ℤ id then some d else none
]

-- a missing key reads as the zero value
abbrev pub detail_or_zero : Option PrefixDetail → PrefixDetail
detail_or_zero (some d) = d
detail_or_zero none = record { id = ℤ.pos 0; cidr = ""; custom_fields = [] }

-- `poolSpec.Prefixes[i].Gateway`, or "" past the end
abbrev pub static_gateway : List NetBoxPrefixReference → ℕ → String
static_gateway prefixes i = elim (get_elem? prefixes i) [ none ↦ "" | some ref ↦ ref.gateway ]

abbrev mark : Bool → ℤ → List ℤ → List ℤ
mark true id ids = id ∷ ids
mark false id ids = ids

module _ (N : Netip) (spec : NetBoxIpPoolSpec) (fetched : List PrefixDetail) where
  -- One round of the loop, at the position `i`.
  unfoldable pub resolve_one : ℕ → ℤ → Result Error (ResolvedPrefix × Bool)
  resolve_one i id = do
    let detail = detail_or_zero (detail_by_id id fetched)
    found ← map_err (wrap ("resolve gateway for prefix " <> format_int id)) (
        resolve_gateway N detail.cidr
          (custom_field_string detail.custom_fields spec.gateway_custom_field)
          (static_gateway spec.prefixes i) spec.gateway)
    ok (record { id = id; cidr = detail.cidr; gateway = found.0 }, found.1)

  unfoldable pub build_from : ℕ → List ℤ → Result Error (List ResolvedPrefix × List ℤ)
  build_from i [] = ok ([], [])
  build_from i (id ∷ ids) = do
    one ← resolve_one i id
    rest ← build_from (suc i) ids
    ok (one.0 ∷ rest.0, mark one.1 id rest.1)

  unfoldable pub build_resolved_prefixes : List ℤ → Result Error (List ResolvedPrefix × List ℤ)
  unfolding build_from
  build_resolved_prefixes prefix_ids = build_from 0 prefix_ids

unfoldable pub gateway_for_prefix_id : List ResolvedPrefix → ℤ → String
gateway_for_prefix_id [] prefix_id = ""
gateway_for_prefix_id (detail ∷ details) prefix_id =
    if detail.id ==ℤ prefix_id then detail.gateway else gateway_for_prefix_id details prefix_id

module _ (N : Netip) where
  open N use {Addr, Prefix, parse_addr, parse_prefix, contains}

  abbrev holds : Result Error Prefix → Addr → Bool
  holds (ok prefix) addr = contains prefix addr
  holds (err e) addr = false

  unfoldable pub first_containing : List ResolvedPrefix → Addr → String
  first_containing [] addr = ""
  first_containing (detail ∷ details) addr =
      let rest = first_containing details addr in
      if is_empty detail.gateway || is_empty detail.cidr
      then rest
      else if holds (parse_prefix detail.cidr) addr
      then detail.gateway
      else rest

  unfoldable pub gateway_for_address : List ResolvedPrefix → String → String
  unfolding first_containing
  gateway_for_address details address = elim (parse_addr address) [
    | err e ↦ ""
    | ok addr ↦ first_containing details addr
  ]
