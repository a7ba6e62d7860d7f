-- ===== src/Ipamutil/Address/Owners.antt =====
-- Which owner of an IPAddress stops being its controller.
use cluster_api_ipam_provide.Base.{
  ℕ, suc, ◌+◌, true, false, List, [], ◌∷◌, ◌++◌, ok, ◌≡◌, refl, ◌∙◌, arith, length, All,
  if◌then◌else◌,
}
use cluster_api_ipam_provide.Api.{Pool, IpAddressClaim, IpAddress, OwnerReference}
use cluster_api_ipam_provide.Cluster.{Controllerutil}
use cluster_api_ipam_provide.Ipamutil.Address.{
  is_pool_ref, pool_ref_index, demoted, demote_at, ensure_ip_address_owner_references,
}

-- None of the references is to the pool.
abbrev pub NotPool : Pool → List OwnerReference → Type 0
NotPool pool = All (λ ref. is_pool_ref pool ref ≡ false)

pool_ref_index-none :
    (pool : Pool) (found i : ℕ) (refs : List OwnerReference)
    → NotPool pool refs
    → pool_ref_index pool found i refs ≡ found
unfolding pool_ref_index
pool_ref_index-none pool found i [] h = refl
pool_ref_index-none pool found i (r ∷ refs) (h, hs) =
    rw h (pool_ref_index-none pool found (suc i) refs hs)

pool_ref_index-last :
    (pool : Pool) (found i : ℕ) (before after : List OwnerReference) (ref : OwnerReference)
    → is_pool_ref pool ref ≡ true
    → NotPool pool after
    → pool_ref_index pool found i (before ++ ref ∷ after) ≡ i + length before
unfolding pool_ref_index
pool_ref_index-last pool found i [] after ref fits h =
    rw (pool_ref_index, fits) (pool_ref_index-none pool i (suc i) after h ∙ omega arith)
pool_ref_index-last pool found i (b ∷ before) after ref fits h =
    pool_ref_index-last pool (if is_pool_ref pool b then i else found) (suc i) before after ref fits
      h
    ∙ omega arith

demote_at-append :
    (before after : List OwnerReference) (ref : OwnerReference)
    → demote_at (length before) (before ++ ref ∷ after) ≡ ok (before ++ demoted ref ∷ after)
unfolding demote_at
demote_at-append [] after ref = refl
demote_at-append (b ∷ before) after ref = rw (demote_at-append before after ref) refl

zero_add : (n : ℕ) → 0 + n ≡ n
zero_add n = omega arith

module _ {W : Type 0} (util : Controllerutil W) (address : IpAddress) (claim : IpAddressClaim)
    (pool : Pool) where
  -- When the claim is made the controller, and the pool an owner, and the pool is among the references:
  -- the last reference to the pool, and no other, stops being the controller and starts blocking the
  -- deletion of its owner; every reference stays, in its place.
  pub ensure_owner_references_demote :
      (owned before after : List OwnerReference) (ref : OwnerReference)
      → util.set_controller_reference claim address.owner_references ≡ ok owned
      → util.set_owner_reference pool owned ≡ ok (before ++ ref ∷ after)
      → is_pool_ref pool ref ≡ true
      → NotPool pool after
      → ensure_ip_address_owner_references util address claim pool
        ≡ ok (record address { owner_references = before ++ demoted ref ∷ after })
  unfolding ensure_ip_address_owner_references
  ensure_owner_references_demote owned before after ref controlled listed fits others =
      rw controlled (
        rw listed (
          rw (pool_ref_index-last pool 0 0 before after ref fits others ∙ zero_add (length before))
            (rw (demote_at-append before after ref) refl)))

  -- Where no reference is to the pool by the pool's own kind and version, the first reference is the
  -- one that stops being the controller, whatever it refers to.
  pub ensure_owner_references_unmatched :
      (owned rest : List OwnerReference) (first : OwnerReference)
      → util.set_controller_reference claim address.owner_references ≡ ok owned
      → util.set_owner_reference pool owned ≡ ok (first ∷ rest)
      → NotPool pool (first ∷ rest)
      → ensure_ip_address_owner_references util address claim pool
        ≡ ok (record address { owner_references = demoted first ∷ rest })
  unfolding ensure_ip_address_owner_references demote_at
  ensure_owner_references_unmatched owned rest first controlled listed others =
      rw controlled (rw listed (rw (pool_ref_index-none pool 0 0 (first ∷ rest) others) refl))
