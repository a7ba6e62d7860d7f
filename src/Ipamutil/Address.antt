-- ===== src/Ipamutil/Address.antt =====
-- pkg/ipamutil/address.go: the IPAddress of a claim and its owners.
pub mod Owners
use cluster_api_ipam_provide.Base.{
  ℕ, zero, suc, String, Bool, true, false, ◌&&◌, List, [], ◌∷◌, Option, none, some, Result, ok, err,
  ◌>>=ʳ◌ as ◌>>=◌, ◌<>◌, ◌=ˢ◌, if◌then◌else◌, map_err,
}
use cluster_api_ipam_provide.Base.Text.{is_empty}
use cluster_api_ipam_provide.Base.Errors.{Error, wrap, is_already_owned, nil_dereference}
use cluster_api_ipam_provide.Api.{Pool, IpAddressClaim, IpAddress, OwnerReference}
use cluster_api_ipam_provide.Cluster.{Controllerutil}

unfoldable pub new_ip_address : IpAddressClaim → Pool → IpAddress
new_ip_address claim pool = record {
  namespace = claim.namespace;
  name = claim.name;
  finalizers = [];
  labels = [];
  owner_references = [];
  claim_ref = claim.name;
  pool_ref = record { api_group = pool.gvk_group; kind = pool.gvk_kind; name = pool.name };
  address = "";
  prefix = none;
  gateway = "";
}

-- `poolGVK.GroupVersion().String()`
abbrev pub group_version_string : Pool → String
group_version_string pool =
    if is_empty pool.gvk_group then pool.gvk_version else pool.gvk_group <> "/" <> pool.gvk_version

abbrev pub is_pool_ref : Pool → OwnerReference → Bool
is_pool_ref pool ref =
    ref.api_version =ˢ group_version_string pool
    && ref.kind =ˢ pool.gvk_kind
    && ref.name =ˢ pool.name

-- the loop: the last position that fits, or the first of all
unfoldable pub pool_ref_index : Pool → (found i : ℕ) → List OwnerReference → ℕ
pool_ref_index pool found i [] = found
pool_ref_index pool found i (ref ∷ refs) =
    pool_ref_index pool (if is_pool_ref pool ref then i else found) (suc i) refs

abbrev pub demoted : OwnerReference → OwnerReference
demoted ref = record ref { controller = some false; block_owner_deletion = some true }

-- the two assignments; an index out of range is a panic
unfoldable pub demote_at : ℕ → List OwnerReference → Result Error (List OwnerReference)
demote_at i [] = err nil_dereference
demote_at zero (ref ∷ refs) = ok (demoted ref ∷ refs)
demote_at (suc i) (ref ∷ refs) = do rest ← demote_at i refs; ok (ref ∷ rest)

module _ {W : Type 0} (util : Controllerutil W) where
  -- an address that another controller owns is left to it
  abbrev owned_or_same :
      List OwnerReference → Result Error (List OwnerReference) → Result Error (List OwnerReference)
  owned_or_same refs (ok refs') = ok refs'
  owned_or_same refs (err e) =
      if is_already_owned e
      then ok refs
      else err (wrap "failed to update address claim owner reference" e)

  unfoldable pub ensure_ip_address_owner_references :
      IpAddress → IpAddressClaim → Pool → Result Error IpAddress
  unfolding pool_ref_index demote_at
  ensure_ip_address_owner_references address claim pool = do
    owned ←
        owned_or_same address.owner_references
          (util.set_controller_reference claim address.owner_references)
    refs ←
        map_err (wrap "failed to update address pool owner reference")
          (util.set_owner_reference pool owned)
    marked ← demote_at (pool_ref_index pool 0 0 refs) refs
    ok (record address { owner_references = marked })
