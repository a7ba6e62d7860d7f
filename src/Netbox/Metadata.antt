-- ===== src/Netbox/Metadata.antt =====
-- internal/netbox/annotations.go: a pool's metadata defaults, overridden by a claim's annotations.
pub mod Tags
pub mod Overrides
use Prim.Native.String
use cluster_api_ipam_provide.Base.{
  String, List, [], ◌∷◌, Option, none, some, Result, ok, err, ◌>>=ʳ◌ as ◌>>=◌, ◌<>◌, if◌then◌else◌,
}
use cluster_api_ipam_provide.Base.Text.{is_empty, trim_space, split}
use cluster_api_ipam_provide.Base.Dict.{Dict, lookup, copy_into}
use cluster_api_ipam_provide.Base.Errors.{Error, wrap, external}
use cluster_api_ipam_provide.Base.Int.{ℤ}
use cluster_api_ipam_provide.Netbox.Numbers.{NumError, syntax, range, parse_int32}
use cluster_api_ipam_provide.Api.{NetBoxMetadata}

abbrev pub annotation_tenant_id : String
annotation_tenant_id = "ipam.netbox.cluster.x-k8s.io/tenant-id"

abbrev pub annotation_vrf_id : String
annotation_vrf_id = "ipam.netbox.cluster.x-k8s.io/vrf-id"

abbrev pub annotation_dns_name : String
annotation_dns_name = "ipam.netbox.cluster.x-k8s.io/dns-name"

abbrev pub annotation_tags : String
annotation_tags = "ipam.netbox.cluster.x-k8s.io/tags"

abbrev pub annotation_custom_fields : String
annotation_custom_fields = "ipam.netbox.cluster.x-k8s.io/custom-fields"

pub record EffectiveMetadata : Type 0 where
  pub tenant_id : Option ℤ
  pub vrf_id : Option ℤ
  pub dns_name : String
  pub tags : List String
  pub custom_fields : Dict String

-- the loop of `splitCSV`
unfoldable pub keep_non_empty : List String → List String
keep_non_empty [] = []
keep_non_empty (part ∷ parts) =
    let rest = keep_non_empty parts in
    let trimmed = trim_space part in if is_empty trimmed then rest else trimmed ∷ rest

unfoldable pub split_csv : String → List String
unfolding keep_non_empty
split_csv raw = keep_non_empty (split b',' raw)

abbrev num_error_text : NumError → String
num_error_text syntax = "invalid syntax"
num_error_text range = "value out of range"

-- `parse_int32`'s error, as `fmt.Errorf("parse %s: %w", key, err)`
abbrev parsed_id : String → Result NumError ℤ → Result Error (Option ℤ)
parsed_id key (ok value) = ok (some value)
parsed_id key (err e) = err (wrap ("parse " <> key) (external (num_error_text e)))

-- the value of an annotation that is present and not empty
abbrev pub given : String → Dict String → Option String
given key annotations = elim (lookup key annotations) [
  | none ↦ none
  | some raw ↦ if is_empty raw then none else some raw
]

-- the two blocks for tenant-id and vrf-id
abbrev pub id_or : String → Option ℤ → Option String → Result Error (Option ℤ)
id_or key current none = ok current
id_or key current (some raw) = parsed_id key (parse_int32 raw)

abbrev pub id_override : String → Dict String → Option ℤ → Result Error (Option ℤ)
id_override key annotations current = id_or key current (given key annotations)

-- the blocks for dns-name and tags
abbrev pub name_or : String → Option String → String
name_or current none = current
name_or current (some raw) = raw

abbrev pub dns_name_override : Dict String → String → String
dns_name_override annotations current = name_or current (lookup annotation_dns_name annotations)

abbrev pub tags_or : List String → Option String → List String
tags_or current none = current
tags_or current (some raw) = split_csv raw

abbrev pub tags_override : Dict String → List String → List String
tags_override annotations current = tags_or current (given annotation_tags annotations)

-- `json.Unmarshal` of an object of strings is a parameter.
module _ (unmarshal : String → Result Error (Dict String)) where
  abbrev merged : Dict String → Result Error (Dict String) → Result Error (Dict String)
  merged fields (ok values) = ok (copy_into fields values)
  merged fields (err e) = err (wrap ("parse " <> annotation_custom_fields) e)

  abbrev pub fields_or : Dict String → Option String → Result Error (Dict String)
  fields_or fields none = ok fields
  fields_or fields (some raw) = merged fields (unmarshal raw)

  abbrev pub custom_fields_override : Dict String → Dict String → Result Error (Dict String)
  custom_fields_override annotations fields =
      fields_or fields (given annotation_custom_fields annotations)

  -- A nil map of annotations is the empty one, for which no block below does anything.
  unfoldable pub effective_pool_metadata :
      NetBoxMetadata → Dict String → Result Error EffectiveMetadata
  effective_pool_metadata defaults annotations = do
    tenant_id ← id_override annotation_tenant_id annotations defaults.tenant_id
    vrf_id ← id_override annotation_vrf_id annotations defaults.vrf_id
    custom_fields ← custom_fields_override annotations defaults.custom_fields
    ok (record {
      tenant_id = tenant_id;
      vrf_id = vrf_id;
      dns_name = dns_name_override annotations defaults.dns_name;
      tags = tags_override annotations defaults.tags;
      custom_fields = custom_fields;
    })
