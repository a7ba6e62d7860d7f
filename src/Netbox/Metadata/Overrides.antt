-- ===== src/Netbox/Metadata/Overrides.antt =====
-- How a claim's annotations override the metadata defaults of its pool.
use cluster_api_ipam_provide.Base.{
  String, List, Option, none, some, Result, ok, err, ◌≡◌, ◌⊎◌, inl, inr, refl, ap, sym, ◌∙◌,
  >>=ʳ_ok,
}
use cluster_api_ipam_provide.Base.Dict.{Dict, lookup, or_else, lookup-copy_into, copy_into}
use cluster_api_ipam_provide.Base.Errors.{Error}
use cluster_api_ipam_provide.Base.Int.{ℤ}
use cluster_api_ipam_provide.Api.{NetBoxMetadata}
use cluster_api_ipam_provide.Netbox.Numbers.{NumError, parse_int32}
use cluster_api_ipam_provide.Netbox.Numbers.RoundTrip.{IsInt32, parse_int32-IsInt32}
use cluster_api_ipam_provide.Netbox.Metadata.{
  EffectiveMetadata, effective_pool_metadata, given, id_override, parsed_id, custom_fields_override,
  merged, split_csv, annotation_tenant_id, annotation_vrf_id, annotation_dns_name, annotation_tags,
  annotation_custom_fields, id_or, name_or, tags_or, fields_or,
}

-- An ID: the pool's, or the one that a non-empty annotation writes, which is an integer of 32 bits.
pub data IdFrom (key : String) (annotations : Dict String) (current : Option ℤ) (r : Option ℤ)
    : Type 0 where
  kept : given key annotations ≡ none → r ≡ current → IdFrom key annotations current r
  written :
      (raw : String) (z : ℤ)
      → given key annotations ≡ some raw
      → parse_int32 raw ≡ ok z
      → IsInt32 z
      → r ≡ some z
      → IdFrom key annotations current r

-- A custom field has the annotation's value, and where it gives none the pool's.
pub data FieldsFrom (unmarshal : String → Result Error (Dict String))
    (annotations current r : Dict String) : Type 0 where
  kept :
      given annotation_custom_fields annotations ≡ none
      → r ≡ current
      → FieldsFrom unmarshal annotations current r
  written :
      (raw : String) (values : Dict String)
      → given annotation_custom_fields annotations ≡ some raw
      → unmarshal raw ≡ ok values
      → ((j : String) → lookup j r ≡ or_else (lookup j values) (lookup j current))
      → FieldsFrom unmarshal annotations current r

-- Where a claim's effective metadata come from.
pub record Effective (unmarshal : String → Result Error (Dict String)) (defaults : NetBoxMetadata)
    (annotations : Dict String) (m : EffectiveMetadata) : Type 0 where
  pub tenant : IdFrom annotation_tenant_id annotations defaults.tenant_id m.tenant_id
  pub vrf : IdFrom annotation_vrf_id annotations defaults.vrf_id m.vrf_id
  pub dns_name :
      some m.dns_name ≡ or_else (lookup annotation_dns_name annotations) (some defaults.dns_name)
  pub tags :
      ((given annotation_tags annotations ≡ none) × (m.tags ≡ defaults.tags))
      ⊎ ((raw : String) × (given annotation_tags annotations ≡ some raw) × (m.tags ≡ split_csv raw))
  pub custom_fields : FieldsFrom unmarshal annotations defaults.custom_fields m.custom_fields

parsed_id_written :
    (key raw : String) (annotations : Dict String) (current r : Option ℤ)
    (answer : Result NumError ℤ)
    → given key annotations ≡ some raw
    → parse_int32 raw ≡ answer
    → parsed_id key answer ≡ ok r
    → IdFrom key annotations current r
parsed_id_written key raw annotations current r (ok z) g e h =
    written raw z g e (parse_int32-IsInt32 raw z e) (cc)
parsed_id_written key raw annotations current r (err x) g e h = absurd (cc)

id_or_from :
    (key : String) (annotations : Dict String) (current r : Option ℤ) (o : Option String)
    → given key annotations ≡ o
    → id_or key current o ≡ ok r
    → IdFrom key annotations current r
id_or_from key annotations current r none g h = kept g (cc)
id_or_from key annotations current r (some raw) g h =
    parsed_id_written key raw annotations current r (parse_int32 raw) g refl h

name_or_from :
    (current : String) (o : Option String) → some (name_or current o) ≡ or_else o (some current)
name_or_from current none = refl
name_or_from current (some raw) = refl

tags_or_from :
    (annotations : Dict String) (current : List String) (o : Option String)
    → given annotation_tags annotations ≡ o
    → ((given annotation_tags annotations ≡ none) × (tags_or current o ≡ current))
      ⊎ ((raw : String) × (given annotation_tags annotations ≡ some raw)
          × (tags_or current o ≡ split_csv raw))
tags_or_from annotations current none g = inl (g, refl)
tags_or_from annotations current (some raw) g = inr (raw, g, refl)

module _ (unmarshal : String → Result Error (Dict String)) where
  merged_written :
      (raw : String) (annotations current r : Dict String) (answer : Result Error (Dict String))
      → given annotation_custom_fields annotations ≡ some raw
      → unmarshal raw ≡ answer
      → merged unmarshal current answer ≡ ok r
      → FieldsFrom unmarshal annotations current r
  merged_written raw annotations current r (ok values) g e h =
      written raw values g e
        (λ j. ap (lookup j) (sym (same current values r h)) ∙ lookup-copy_into j current values)
    where
      same :
          (d m r : Dict String)
          → ◌≡◌ {A = Result Error (Dict String)} (ok (copy_into d m)) (ok r)
          → copy_into d m ≡ r
      same d m r h = cc
  merged_written raw annotations current r (err x) g e h = absurd (cc)

  fields_or_from :
      (annotations current r : Dict String) (o : Option String)
      → given annotation_custom_fields annotations ≡ o
      → fields_or unmarshal current o ≡ ok r
      → FieldsFrom unmarshal annotations current r
  fields_or_from annotations current r none g h = kept g (cc)
  fields_or_from annotations current r (some raw) g h =
      merged_written raw annotations current r (unmarshal raw) g refl h

  -- The metadata that an allocation uses: each part is the claim's, where an annotation gives it, and
  -- else the pool's; an ID from an annotation is an integer of 32 bits, and custom fields are merged
  -- name by name.
  pub effective_pool_metadata-Effective :
      (defaults : NetBoxMetadata) (annotations : Dict String) (m : EffectiveMetadata)
      → effective_pool_metadata unmarshal defaults annotations ≡ ok m
      → Effective unmarshal defaults annotations m
  unfolding effective_pool_metadata
  effective_pool_metadata-Effective defaults annotations m h =
      let (tenant, et, h1) =
        >>=ʳ_ok (id_override annotation_tenant_id annotations defaults.tenant_id) _ m h in
      let (vrf, ev, h2) =
        >>=ʳ_ok (id_override annotation_vrf_id annotations defaults.vrf_id) _ m h1 in
      let (fields, ef, h3) =
        >>=ʳ_ok (custom_fields_override unmarshal annotations defaults.custom_fields) _ m h2 in
      let same = ok_inj h3 in
      rw (sym same) (record {
        tenant = id_or_from annotation_tenant_id annotations defaults.tenant_id tenant _ refl et;
        vrf = id_or_from annotation_vrf_id annotations defaults.vrf_id vrf _ refl ev;
        dns_name = name_or_from defaults.dns_name _;
        tags = tags_or_from annotations defaults.tags _ refl;
        custom_fields = fields_or_from annotations defaults.custom_fields fields _ refl ef;
      })
    where
      ok_inj :
          {x y : EffectiveMetadata} → ◌≡◌ {A = Result Error EffectiveMetadata} (ok x) (ok y) → x ≡ y
      ok_inj h = cc
