-- ===== src/Controller/ResolvedPrefixes/Aligned.antt =====
-- The cached entries stand in the order of the prefixes, each with the gateway of its own reference.
use cluster_api_ipam_provide.Base.{
  ℕ, suc, String, Bool, true, false, List, [], ◌∷◌, ok, ◌≡◌, ◌⊎◌, ◌↔◌, inl, inr, refl, sym, >>=ʳ_ok,
  map_err_ok, map_err,
}
use cluster_api_ipam_provide.Base.Int.{ℤ}
use cluster_api_ipam_provide.Api.{NetBoxIpPoolSpec, ResolvedPrefix}
use cluster_api_ipam_provide.Netbox.Gateway.{Netip, resolve_gateway, custom_field_string}
use cluster_api_ipam_provide.Netbox.Wire.{PrefixDetail}
use cluster_api_ipam_provide.Controller.ResolvedPrefixes.{
  detail_by_id, detail_or_zero, static_gateway, mark, resolve_one, build_from,
  build_resolved_prefixes,
}
use cluster_api_ipam_provide.Controller.ResolvedPrefixes.Parts.{
  IsFetched, IsGatewayAt, IsCustomField, IsFetched-detail, detail-IsFetched, IsGatewayAt-static,
  static-IsGatewayAt, IsCustomField-custom, custom-IsCustomField,
}

-- The flagged IDs with one more prefix before them.
abbrev pub IsFlagged : Bool → ℤ → List ℤ → List ℤ → Type 0
IsFlagged in_range id flagged flagged' =
    ((in_range ≡ true) × (flagged' ≡ id ∷ flagged)) ⊎ ((in_range ≡ false) × (flagged' ≡ flagged))

mark-IsFlagged :
    (in_range : Bool) (id : ℤ) (flagged : List ℤ)
    → IsFlagged in_range id flagged (mark in_range id flagged)
mark-IsFlagged true id flagged = inl (refl, refl)
mark-IsFlagged false id flagged = inr (refl, refl)

IsFlagged-mark :
    {in_range : Bool} {id : ℤ} {flagged flagged' : List ℤ}
    → IsFlagged in_range id flagged flagged'
    → flagged' ≡ mark in_range id flagged
IsFlagged-mark (inl (yes_it_is, e)) = rw yes_it_is e
IsFlagged-mark (inr (it_is_not, e)) = rw it_is_not e

module _ (N : Netip) (spec : NetBoxIpPoolSpec) (fetched : List PrefixDetail) where
  -- The entries for the prefixes `ids` from the position `i` on, and the IDs among them whose gateway
  -- lies in its prefix: each entry has its ID, the CIDR that was fetched for it, and the gateway
  -- resolved from that prefix's custom field, the reference at the same position, and the pool.
  pub data Entries : ℕ → List ℤ → List ResolvedPrefix → List ℤ → Type 0 where
    end :
        (i : ℕ) (entries : List ResolvedPrefix) (flagged : List ℤ)
        → entries ≡ []
        → flagged ≡ []
        → Entries i [] entries flagged
    entry :
        (i : ℕ) (id : ℤ) (ids : List ℤ) (detail : PrefixDetail) (custom static gateway : String)
        (in_range : Bool) (entries entries' : List ResolvedPrefix) (flagged flagged' : List ℤ)
        → IsFetched fetched id detail
        → IsCustomField detail.custom_fields spec.gateway_custom_field custom
        → IsGatewayAt spec.prefixes i static
        → resolve_gateway N detail.cidr custom static spec.gateway ≡ ok (gateway, in_range)
        → IsFlagged in_range id flagged flagged'
        → entries' ≡ record { id = id; cidr = detail.cidr; gateway = gateway } ∷ entries
        → Entries (suc i) ids entries flagged
        → Entries i (id ∷ ids) entries' flagged'

  abbrev detail_of : ℤ → PrefixDetail
  detail_of id = detail_or_zero (detail_by_id id fetched)

  resolve_one_sound :
      (i : ℕ) (id : ℤ) (one : ResolvedPrefix × Bool)
      → resolve_one N spec fetched i id ≡ ok one
      → (gateway : String) × (in_range : Bool) × (resolve_gateway N
            (detail_of id).cidr
            (custom_field_string (detail_of id).custom_fields spec.gateway_custom_field)
            (static_gateway spec.prefixes i)
            spec.gateway
          ≡ ok (gateway, in_range))
        × (one.0 ≡ record { id = id; cidr = (detail_of id).cidr; gateway = gateway })
        × (one.1 ≡ in_range)
  unfolding resolve_one
  resolve_one_sound i id one h =
      let (found, ef, h1) =
        >>=ʳ_ok
          (map_err _ (
            resolve_gateway N (detail_of id).cidr
              (custom_field_string (detail_of id).custom_fields spec.gateway_custom_field)
              (static_gateway spec.prefixes i) spec.gateway))
          _ one h in
      (found.0, found.1, map_err_ok _ _ found ef, cc, cc)

  build_from_sound :
      (i : ℕ) (ids : List ℤ) (entries : List ResolvedPrefix) (flagged : List ℤ)
      → build_from N spec fetched i ids ≡ ok (entries, flagged)
      → Entries i ids entries flagged
  unfolding build_from
  build_from_sound i [] entries flagged h = end i entries flagged (cc) (cc)
  build_from_sound i (id ∷ ids) entries flagged h =
      let (one, e1, h1) = >>=ʳ_ok (resolve_one N spec fetched i id) _ (entries, flagged) h in
      let ((es, fs), e2, h2) =
        >>=ʳ_ok (build_from N spec fetched (suc i) ids) _ (entries, flagged) h1 in
      let (gateway, in_range, eg, e0, er) = resolve_one_sound i id one e1 in
      let marked : mark in_range id fs ≡ flagged = cc in
      entry i id ids (detail_of id)
        (custom_field_string (detail_of id).custom_fields spec.gateway_custom_field)
        (static_gateway spec.prefixes i) gateway in_range es entries fs flagged
        (detail-IsFetched id fetched)
        (custom-IsCustomField (detail_of id).custom_fields spec.gateway_custom_field)
        (static-IsGatewayAt spec.prefixes i) eg (rw (sym marked) (mark-IsFlagged in_range id fs))
        (cc) (build_from_sound (suc i) ids es fs e2)

  build_from_complete :
      {i : ℕ} {ids : List ℤ} {entries : List ResolvedPrefix} {flagged : List ℤ}
      → Entries i ids entries flagged
      → build_from N spec fetched i ids ≡ ok (entries, flagged)
  unfolding build_from resolve_one
  build_from_complete (end i entries flagged ee ef) = rw (ee, ef)
  build_from_complete
        (entry i id ids detail custom static gateway in_range es es' fs fs' ed ec es0 eg ef ee
          rest) =
      rw (IsFetched-detail ed) (
        rw (IsCustomField-custom ec, IsGatewayAt-static es0)
          (rw eg (rw (build_from_complete rest) (rw (IsFlagged-mark ef, ee)))))

  -- The entries that are cached are exactly one for each prefix ID, in order, with the CIDR that was
  -- fetched last for it and the gateway chosen from that prefix's custom field, the pool's reference at
  -- the same position, if there is one, and the pool; an ID for which nothing was fetched has an empty
  -- CIDR and no custom field; and the IDs that are flagged are, in order, those whose gateway lies in
  -- the prefix.
  pub build_resolved_prefixes_iff :
      (ids : List ℤ) (entries : List ResolvedPrefix) (flagged : List ℤ)
      → (build_resolved_prefixes N spec fetched ids ≡ ok (entries, flagged))
        ↔ Entries 0 ids entries flagged
  unfolding build_resolved_prefixes
  build_resolved_prefixes_iff ids entries flagged =
      (build_from_sound 0 ids entries flagged, build_from_complete)
