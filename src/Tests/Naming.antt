-- ===== src/Tests/Naming.antt =====
-- Examples of gateways, metadata, settings, slugs and numbers.
use cluster_api_ipam_provide.Base.{
  ℕ, ◌<◌, String, true, false, [], ◌∷◌, none, some, Result, ok, ◌≡◌, ◌↔◌, ◌⊎◌, refl, All,
}
use cluster_api_ipam_provide.Base.Text.{is_empty, join, trim_space}
use cluster_api_ipam_provide.Base.Errors.{Error}
use cluster_api_ipam_provide.Base.Dict.{Dict, lookup, copy_into, insert}
use cluster_api_ipam_provide.Base.Int.{pos}
use cluster_api_ipam_provide.Api.{NamespacedSecretReference}
use cluster_api_ipam_provide.Netbox.Numbers.{parse_int32}
use cluster_api_ipam_provide.Netbox.Gateway.{resolve_gateway}
use cluster_api_ipam_provide.Netbox.Gateway.Choice.{GatewayOf, resolve_gateway_iff}
use cluster_api_ipam_provide.Netbox.Slug.{slugify_tag}
use cluster_api_ipam_provide.Netbox.Slug.Shape.{IsSlug, slugify_tag-IsSlug}
use cluster_api_ipam_provide.Netbox.Metadata.{EffectiveMetadata, effective_pool_metadata, split_csv}
use cluster_api_ipam_provide.Netbox.Metadata.Tags.{IsTag, split_csv-join}
use cluster_api_ipam_provide.Netbox.Metadata.Overrides.{
  Effective, effective_pool_metadata-Effective,
}
use cluster_api_ipam_provide.Netbox.Config.{
  ConnectionConfig, HttpClient, new_http_client, load_connection_config, connection_config,
}
use cluster_api_ipam_provide.Netbox.Config.Connection.{
  IsPlace, Given, load_connection_config-Given, new_http_client_limited,
}
use cluster_api_ipam_provide.Tests.World.{netip, ascii, no_metadata, kube}

resolve_gateway_iff_example :
    (resolve_gateway netip "10.0.0.0/24" "" " in " "x" ≡ ok ("in", true))
    ↔ GatewayOf netip "10.0.0.0/24" ("" ∷ " in " ∷ "x" ∷ []) "in" true
resolve_gateway_iff_example = resolve_gateway_iff netip "10.0.0.0/24" "" " in " "x" "in" true

slugify_tag-IsSlug_example : IsSlug (slugify_tag ascii "Owner: Team A")
slugify_tag-IsSlug_example = slugify_tag-IsSlug ascii "Owner: Team A"

two_tags : All IsTag ("a" ∷ "b" ∷ [])
unfolding trim_space
two_tags = (
  record { nonempty = refl; trimmed = refl; no_comma = (refl, tt) },
  (record { nonempty = refl; trimmed = refl; no_comma = (refl, tt) }, tt),
)

split_csv-join_example : split_csv (join "," ("a" ∷ "b" ∷ [])) ≡ "a" ∷ "b" ∷ []
split_csv-join_example = split_csv-join ("a" ∷ "b" ∷ []) two_tags

abbrev annotations : Dict String
annotations =
    ("ipam.netbox.cluster.x-k8s.io/tenant-id", "12")
    ∷ ("ipam.netbox.cluster.x-k8s.io/custom-fields", "{}")
    ∷ []

abbrev decoded : String → Result Error (Dict String)
decoded s = ok (("cost", "1") ∷ [])

abbrev effective : EffectiveMetadata
effective = record {
  tenant_id = some (pos 12);
  vrf_id = none;
  dns_name = "";
  tags = [];
  custom_fields = ("cost", "1") ∷ [];
}

effective_pool_metadata-Effective_example : Effective decoded no_metadata annotations effective
unfolding effective_pool_metadata lookup parse_int32 copy_into insert
effective_pool_metadata-Effective_example =
    effective_pool_metadata-Effective decoded no_metadata annotations effective refl

abbrev settings : ConnectionConfig
settings = record {
  base_url = "https://netbox";
  token = "t";
  insecure_skip_verify = false;
  ca_bundle = "";
  request_timeout = pos 0;
}

abbrev reference : NamespacedSecretReference
reference = record { name = "netbox"; namespace = "" }

load_connection_config-Given_example :
    (place : String) × (secret : Dict String) × IsPlace "ns" reference place
    × (kube.get_secret place "netbox" 0 ≡ (ok secret, 1))
    × Given secret settings
unfolding load_connection_config connection_config lookup
load_connection_config-Given_example =
    load_connection_config-Given kube.get_secret "ns" reference settings 0 1 refl

abbrev http : HttpClient
http = record { insecure_skip_verify = false; root_cas = none; timeout = pos 30000000000 }

new_http_client_limited_example :
    ((n : ℕ) × (0 < n) × (pos 30000000000 ≡ pos n))
    × (false ≡ false)
    × (((is_empty "" ≡ true) × (http.root_cas ≡ none))
        ⊎ ((false ≡ true) × (http.root_cas ≡ some "")))
unfolding new_http_client
new_http_client_limited_example = new_http_client_limited (λ s. false) settings http refl
