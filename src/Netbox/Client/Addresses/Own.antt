-- ===== src/Netbox/Client/Addresses/Own.antt =====
-- NetBox's record of a claim: what an allocation writes is what the search by the claim's UID reads.
use cluster_api_ipam_provide.Base.{
  ℕ, String, List, [], ◌∷◌, ◌++◌, Option, none, some, ok, ◌≡◌, ◌≢◌, ◌↔◌, refl, ◌=ˢ◌, arith, inl,
  inr, Bool-cases, eq_iff, eq_refl, wrapping, >>=_ok, wrapping_ok, All, ◌<>◌, ap, sym,
}
use cluster_api_ipam_provide.Base.Dict.{lookup, lookup-insert}
use cluster_api_ipam_provide.Base.Errors.{wrap}
use cluster_api_ipam_provide.Base.Int.{ℤ}
use cluster_api_ipam_provide.Netbox.Gateway.{FieldValue, text}
use cluster_api_ipam_provide.Netbox.Numbers.{format_int}
use cluster_api_ipam_provide.Netbox.Wire.{
  Network, NetBoxIpAddress, NetBoxTag, AllocatedAddress, AllocationRequest, addresses,
}
use cluster_api_ipam_provide.Netbox.Client.{ApiClient, post_request}
use cluster_api_ipam_provide.Netbox.Client.Tags.{append_unique, ensure_tags}
use cluster_api_ipam_provide.Netbox.Client.Addresses.{
  map_ip_address, printed_field, first_with_claim_uid, allocation_payload, allocate_ip_address,
  first_created, allocation_error,
}

module _ (field_name claim_uid : String) where
  -- A record whose custom field prints as the claim's UID.
  abbrev pub Carries : NetBoxIpAddress → Type 0
  Carries item = printed_field (lookup field_name item.custom_fields) ≡ claim_uid

  -- The first record that carries the UID, or that there is none.
  pub data Chosen (r : Option AllocatedAddress) : List NetBoxIpAddress → Type 0 where
    nobody : r ≡ none → Chosen r []
    here :
        (item : NetBoxIpAddress) (items : List NetBoxIpAddress)
        → Carries item
        → r ≡ some (map_ip_address item)
        → Chosen r (item ∷ items)
    later :
        (item : NetBoxIpAddress) (items : List NetBoxIpAddress)
        → printed_field (lookup field_name item.custom_fields) ≢ claim_uid
        → Chosen r items
        → Chosen r (item ∷ items)

  first_with_claim_uid-Chosen :
      (items : List NetBoxIpAddress)
      → Chosen (first_with_claim_uid field_name claim_uid items) items
  unfolding first_with_claim_uid
  first_with_claim_uid-Chosen [] = nobody refl
  first_with_claim_uid-Chosen (item ∷ items) =
      let printed = printed_field (lookup field_name item.custom_fields) in
      elim (Bool-cases (printed =ˢ claim_uid)) [
        | inl same ↦ rw same (here item items ((eq_iff printed claim_uid).0 same) refl)
        | inr differ ↦ rw differ (
            later item items (λ e. absurd (ground (arith, eq_iff printed claim_uid)))
              (first_with_claim_uid-Chosen items))
      ]

  first_with_claim_uid_complete :
      {r : Option AllocatedAddress} {items : List NetBoxIpAddress}
      → Chosen r items
      → first_with_claim_uid field_name claim_uid items ≡ r
  unfolding first_with_claim_uid
  first_with_claim_uid_complete (nobody e) = cc
  first_with_claim_uid_complete (here item items carries e) =
      ground (arith, e, eq_iff (printed_field (lookup field_name item.custom_fields)) claim_uid)
  first_with_claim_uid_complete (later item items n k) = ground (
    arith,
    first_with_claim_uid_complete k,
    eq_iff (printed_field (lookup field_name item.custom_fields)) claim_uid,
  )

  -- The search gives the first of the records whose custom field prints as the claim's UID, and
  -- nothing only when no record does.
  pub first_with_claim_uid_iff :
      (items : List NetBoxIpAddress) (r : Option AllocatedAddress)
      → (first_with_claim_uid field_name claim_uid items ≡ r) ↔ Chosen r items
  first_with_claim_uid_iff items r =
      ((λ e. rw e at (first_with_claim_uid-Chosen items)), first_with_claim_uid_complete)

  -- A record with another value of the custom field.
  abbrev pub Lacks : NetBoxIpAddress → Type 0
  Lacks item = printed_field (lookup field_name item.custom_fields) ≢ claim_uid

  Chosen-first :
      (before after : List NetBoxIpAddress) (item : NetBoxIpAddress)
      → Carries item
      → All Lacks before
      → Chosen (some (map_ip_address item)) (before ++ item ∷ after)
  Chosen-first [] after item c lacking = here item after c refl
  Chosen-first (b ∷ before) after item c (lacks, lacking) =
      later b (before ++ item ∷ after) lacks (Chosen-first before after item c lacking)

-- The payload names the claim, whatever the metadata of the pool and of the claim say.
pub lookup-allocation_payload :
    (req : AllocationRequest) (tags : List NetBoxTag)
    → lookup req.claim_uid_field_name (allocation_payload req tags).custom_fields
      ≡ some req.claim_uid
unfolding allocation_payload
lookup-allocation_payload req tags = ground (
  arith,
  eq_refl req.claim_uid_field_name,
  lookup-insert req.claim_uid_field_name req.claim_uid_field_name req.claim_uid
      req.metadata.custom_fields,
)

-- The custom field of that name as NetBox keeps a text.
abbrev pub kept : Option String → Option FieldValue
kept none = none
kept (some s) = some (text s)

-- A record that has the custom field of an allocation's payload as its text is what the search for the
-- claim's UID gives, wherever it stands among NetBox's records, if none before it has the UID in that
-- field: an address that was allocated for a claim is the one found for it, also where the metadata
-- have a custom field of the same name.
pub allocated_is_found :
    (req : AllocationRequest) (tags : List NetBoxTag) (before after : List NetBoxIpAddress)
    (item : NetBoxIpAddress)
    → lookup req.claim_uid_field_name item.custom_fields
      ≡ kept (lookup req.claim_uid_field_name (allocation_payload req tags).custom_fields)
    → All (Lacks req.claim_uid_field_name req.claim_uid) before
    → first_with_claim_uid req.claim_uid_field_name req.claim_uid (before ++ item ∷ after)
      ≡ some (map_ip_address item)
allocated_is_found req tags before after item same lacking =
    first_with_claim_uid_complete req.claim_uid_field_name req.claim_uid (
      Chosen-first req.claim_uid_field_name req.claim_uid before after item
        (rw same (rw lookup-allocation_payload refl)) lacking)

module _ {W : Type 0} (N : Network W) (c : ApiClient) (fuel : ℕ) where
  -- An allocation that succeeds: its tags, the ownership tag among them, were made to exist, and the
  -- address is the first one that NetBox created for the payload.
  pub record Allocation (prefix_id : ℤ) (req : AllocationRequest) (w w' : W) (a : AllocatedAddress)
      : Type 0 where
    tags : List NetBoxTag
    created : NetBoxIpAddress
    more : List NetBoxIpAddress
    between : W
    tagged :
        ensure_tags N c fuel (append_unique req.metadata.tags (req.ownership_tag ∷ [])) w
        ≡ (ok tags, between)
    posted :
        post_request N c N.decode_created []
          ("/api/ipam/prefixes/" <> format_int prefix_id <> "/available-ips/")
          (addresses (allocation_payload req tags ∷ []))
          (200 ∷ 201 ∷ [])
          between
        ≡ (ok (created ∷ more), w')
    mapped : a ≡ map_ip_address created
    named :
        lookup req.claim_uid_field_name (allocation_payload req tags).custom_fields
        ≡ some req.claim_uid

  first_created_ok :
      (ips : List NetBoxIpAddress) (a : AllocatedAddress)
      → first_created ips ≡ ok a
      → (ip : NetBoxIpAddress) × (more : List NetBoxIpAddress) × (ips ≡ ip ∷ more)
        × (a ≡ map_ip_address ip)
  first_created_ok [] a h = absurd (cc)
  first_created_ok (ip ∷ ips) a h = (ip, ips, refl, cc)

  -- When an allocation succeeds, its tags and the ownership tag were made to exist, the payload that
  -- was posted for the prefix carries the claim's UID, and the address is the first one that NetBox
  -- created for it.
  pub allocate_ip_address_recorded :
      (prefix_id : ℤ) (req : AllocationRequest) (w w' : W) (a : AllocatedAddress)
      → allocate_ip_address N c fuel prefix_id req w ≡ (ok a, w')
      → Allocation prefix_id req w w' a
  unfolding allocate_ip_address
  allocate_ip_address_recorded prefix_id req w w' a h =
      let tagging =
        ensure_tags N c fuel (append_unique req.metadata.tags (req.ownership_tag ∷ [])) in
      let (tags, w1, et, h1) = >>=_ok (wrapping (wrap "ensure tags") tagging) _ w w' a h in
      let posting =
        post_request N c N.decode_created []
          ("/api/ipam/prefixes/" <> format_int prefix_id <> "/available-ips/")
          (addresses (allocation_payload req tags ∷ [])) (200 ∷ 201 ∷ []) in
      let (ips, w2, ep, h2) =
        >>=_ok (wrapping (allocation_error N c fuel prefix_id) posting) _ w1 w' a h1 in
      let (ip, more, split, mapped) = first_created_ok ips a (ap (λ q. q.0) h2) in
      let posted = wrapping_ok (allocation_error N c fuel prefix_id) posting w1 w2 ips ep in
      record {
        tags = tags;
        created = ip;
        more = more;
        between = w1;
        tagged = wrapping_ok (wrap "ensure tags") tagging w w1 tags et;
        posted = rw (sym split, sym (ap (λ q. q.1) h2)) posted;
        mapped = mapped;
        named = lookup-allocation_payload req tags;
      }
