-- ===== src/Api/Scheme.antt =====
-- api/v1alpha1/groupversion_info.go, and the registrations of the two kinds in `init` of
-- netboxippool_types.go and globalnetboxippool_types.go.
use cluster_api_ipam_provide.Base.{String, List, [], ◌∷◌, Result, ok, ◌>>=ʳ◌}
use cluster_api_ipam_provide.Base.Errors.{Error}
use cluster_api_ipam_provide.Api.{group, netbox_ip_pool_kind, global_netbox_ip_pool_kind}

pub record GroupVersion : Type 0 where
  pub group : String
  pub version : String

abbrev pub this_group_version : GroupVersion
this_group_version = record { group = group; version = "v1alpha1" }

-- `runtime.Scheme`, with what is registered in one.
pub record SchemeLibrary : Type 1 where
  pub Scheme : Type 0
  pub new_scheme : Scheme
  pub add_to_group_version : GroupVersion → Scheme → Scheme
  pub add_known_types : GroupVersion → List String → Scheme → Scheme

module _ (L : SchemeLibrary) where
  -- the `init` functions of the two kinds
  unfoldable pub register_netbox_ip_pool : L.Scheme → Result Error L.Scheme
  register_netbox_ip_pool s =
      ok (L.add_known_types this_group_version (netbox_ip_pool_kind ∷ "NetBoxIPPoolList" ∷ []) s)

  unfoldable pub register_global_netbox_ip_pool : L.Scheme → Result Error L.Scheme
  register_global_netbox_ip_pool s = ok (
      L.add_known_types this_group_version
        (global_netbox_ip_pool_kind ∷ "GlobalNetBoxIPPoolList" ∷ []) s)

  -- `SchemeBuilder` after the `init` functions, which Go runs in the order of their files' names
  unfoldable pub scheme_builder : List (L.Scheme → Result Error L.Scheme)
  scheme_builder =
      (λ s. ok (L.add_to_group_version this_group_version s))
      ∷ register_global_netbox_ip_pool
      ∷ register_netbox_ip_pool
      ∷ []

  -- one function after another, up to the first error
  unfoldable pub add_all :
      List (L.Scheme → Result Error L.Scheme) → L.Scheme → Result Error L.Scheme
  add_all [] s = ok s
  add_all (add ∷ adds) s = add s >>=ʳ add_all adds

  -- `AddToScheme`
  unfoldable pub add_to_scheme : L.Scheme → Result Error L.Scheme
  add_to_scheme = add_all scheme_builder
