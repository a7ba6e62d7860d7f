-- ===== src/Netbox/Client/Server/Finding.antt =====
-- The search for a claim's record, on a server that keeps its promises.
use cluster_api_ipam_provide.Base.{
  ℕ, String, List, [], ◌∷◌, Option, ◌≡◌, inl, inr, Effect, ok, pure, wrapping, ◌>>=◌, Ensures,
  After-any, Ensures-wrapping, Ensures-bind, Answered-cases,
}
use cluster_api_ipam_provide.Base.Errors.{Error, wrap}
use cluster_api_ipam_provide.Netbox.Wire.{Network, NetBoxIpAddress, AllocatedAddress}
use cluster_api_ipam_provide.Netbox.Client.{ApiClient, list_all}
use cluster_api_ipam_provide.Netbox.Client.Tags.{ensure_tag}
use cluster_api_ipam_provide.Netbox.Client.Addresses.{
  first_with_claim_uid, tagged_addresses, find_ip_address_by_claim_uid,
}
use cluster_api_ipam_provide.Netbox.Client.Server.{Serves}
use cluster_api_ipam_provide.Netbox.Client.Server.Listing.{
  list_all-Listed, first_with_claim_uid-record,
}
use cluster_api_ipam_provide.Netbox.Client.Server.Reading.{list_all-Keeping, ensure_tag-Keeping}

module _ {W : Type 0} (Holds : W → Option AllocatedAddress → Type 0) (N : Network W) (c : ApiClient)
    (fuel : ℕ) (tag field uid : String) (S : Serves Holds N c tag field uid) where
  -- the addresses with the ownership tag, as the search reads them
  abbrev own_addresses : Effect W Error (List NetBoxIpAddress)
  own_addresses = list_all N c N.decode_addresses fuel "/api/ipam/ip-addresses/" (("tag", tag) ∷ [])

  module _ (o : Option AllocatedAddress) where
    own_addresses-found :
        Ensures
          (λ items v. (first_with_claim_uid field uid items ≡ o) × Holds v o)
          (λ e v. Holds v o)
          (λ v. Holds v o)
          own_addresses
    own_addresses-found w h =
        let kept =
          (list_all-Keeping Holds N c fuel tag field uid S o N.decode_addresses
              "/api/ipam/ip-addresses/" (("tag", tag) ∷ [])).at
            w h in
        elim (Answered-cases (own_addresses w)) [
          | inl (items, (w1, e)) ↦ rw e (found_in items w w1 h e, rw e at kept)
          | inr (x, (w1, e)) ↦ rw e (rw e at kept)
        ]
      where
        found_in :
            (items : List NetBoxIpAddress) (w w1 : W)
            → Holds w o
            → own_addresses w ≡ (ok items, w1)
            → first_with_claim_uid field uid items ≡ o
        found_in items w w1 h e = first_with_claim_uid-record field uid o items S.uid_proper (
            S.listing o w w1 items h
              (list_all-Listed N c fuel "/api/ipam/ip-addresses/" (("tag", tag) ∷ []) items w w1 e))

    -- The search for the claim's UID gives the record, if it is answered.
    pub find_by_claim_uid-found :
        Ensures
          (λ p v. (p ≡ o) × Holds v o)
          (λ e v. Holds v o)
          (λ v. Holds v o)
          (find_ip_address_by_claim_uid N c fuel tag field uid)
    unfolding find_ip_address_by_claim_uid tagged_addresses
    find_by_claim_uid-found =
        Ensures-bind (λ items v. (first_with_claim_uid field uid items ≡ o) × Holds v o)
          (λ p v. (p ≡ o) × Holds v o) (λ e v. Holds v o)
          (tagged_addresses N c fuel "list IP addresses" tag []) _
          (Ensures-bind (λ u v. Holds v o)
            (λ items v. (first_with_claim_uid field uid items ≡ o) × Holds v o) (λ e v. Holds v o)
            (wrapping (wrap "ensure ownership tag") (ensure_tag N c fuel tag >>= λ t. pure tt)) _
            (Ensures-wrapping (λ u v. Holds v o) (λ e v. Holds v o) (wrap "ensure ownership tag")
              (ensure_tag N c fuel tag >>= λ t. pure tt)
              (Ensures-bind (λ t v. Holds v o) (λ u v. Holds v o) (λ e v. Holds v o)
                (ensure_tag N c fuel tag) _
                (λ w h.
                  After-any (λ v. Holds v o) _ _
                    ((ensure_tag-Keeping Holds N c fuel tag field uid S o tag).at w h))
                (λ t w h. h)))
            (λ u.
              Ensures-wrapping (λ items v. (first_with_claim_uid field uid items ≡ o) × Holds v o)
                (λ e v. Holds v o) (wrap "list IP addresses") own_addresses own_addresses-found))
          (λ items w h. h)
