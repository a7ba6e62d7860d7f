-- ===== src/Netbox/Client/Server/Creating.antt =====
-- The allocation of an address for a claim, on a server that keeps its promises.
use cluster_api_ipam_provide.Base.{
  ℕ, String, false, List, [], ◌∷◌, Option, none, some, Result, ok, err, ◌≡◌, ◌⊎◌, refl, sym, ◌<>◌,
  inl, inr, lift, wrapping, After, Ensures, After-weaken, After-any, Ensures-wrapping, Ensures-bind,
  Answered-cases, Result-cases,
}
use cluster_api_ipam_provide.Base.Dict.{lookup}
use cluster_api_ipam_provide.Base.Errors.{Error, wrap, as_api, is_no_available_ip}
use cluster_api_ipam_provide.Base.Int.{ℤ}
use cluster_api_ipam_provide.Netbox.Numbers.{format_int}
use cluster_api_ipam_provide.Netbox.Wire.{
  Network, Response, post, addresses, NetBoxTag, NetBoxIpAddress, AllocatedAddress,
  AllocationRequest, AddressPayload,
}
use cluster_api_ipam_provide.Netbox.Client.{
  ApiClient, http_request, do_request, post_request, read_response,
}
use cluster_api_ipam_provide.Netbox.Client.Tags.{append_unique, ensure_tags}
use cluster_api_ipam_provide.Netbox.Client.Addresses.{
  map_ip_address, is_no_available_ip_error, allocation_error, allocation_payload,
  allocate_ip_address, first_created,
}
use cluster_api_ipam_provide.Netbox.Client.Addresses.Own.{lookup-allocation_payload}
use cluster_api_ipam_provide.Netbox.Client.Server.{Serves, Uncertain, IsForeign, Creation}
use cluster_api_ipam_provide.Netbox.Client.Server.Tagging.{ensure_tags-own}
use mathlib.Core.List.{Memᴰ}
use cluster_api_ipam_provide.Netbox.Client.Server.Reading.{ensure_tags-Keeping}

module _ {W : Type 0} (Holds : W → Option AllocatedAddress → Type 0) (N : Network W) (c : ApiClient)
    (fuel : ℕ) (tag field uid : String) (S : Serves Holds N c tag field uid) where
  -- an allocation failed with `e`, before that is told from a prefix that is full
  abbrev Failed : Error → W → Type 0
  Failed e w = Holds w none ⊎ (IsForeign e × Uncertain Holds w)

  -- what was created
  data Made (items : List NetBoxIpAddress) (w : W) : Type 0 where
    nothing : items ≡ [] → Holds w none → Made items w
    record_of :
        (item : NetBoxIpAddress) (more : List NetBoxIpAddress)
        → items ≡ item ∷ more
        → Holds w (some (map_ip_address item))
        → Made items w

  sent :
      (r : Result Error Response) (w : W)
      → Creation Holds N r w
      → After (λ resp v. Creation Holds N (ok resp) v) Failed r w
  sent (ok resp) w k = k
  sent (err e) w (Creation.unsent x v f u) = inr (f, u)

  -- reading the answer, to a request that is described as `d`
  read :
      (d : String) (resp : Response) (w : W)
      → Creation Holds N (ok resp) w
      → After Made Failed (read_response N c N.decode_created [] d (200 ∷ 201 ∷ []) resp) w
  unfolding read_response
  read d resp w (Creation.refused x v other h) = elim (Result-cases resp.body) [
    | inl (b, body) ↦ rw body (rw other (inl h))
    | inr (e, body) ↦ rw body (inl h)
  ]
  read d resp w (Creation.unread x v e body f u) = rw body (inr (f, u))
  read d resp w (Creation.garbled x v b e fine body full bad f u) =
      rw body (rw fine (rw full (rw bad (inr (f, u)))))
  read d resp w (Creation.created x v b item items fine body full good h) =
      rw body (rw fine (rw full (rw good (record_of item items refl h))))
  read d resp w (Creation.nothing x v b fine body (inl empty) h) =
      rw body (rw fine (rw empty (nothing refl h)))
  read d resp w (Creation.nothing x v b fine body (inr (full, none_made)) h) =
      rw body (rw fine (rw full (rw none_made (nothing refl h))))

  -- The ownership tag is among the tags.
  abbrev Own : List NetBoxTag → Type 0
  Own tags = (t : NetBoxTag) × Memᴰ t tags × (t.name ≡ tag)

  created :
      (path : String) (p : AddressPayload)
      → lookup field p.custom_fields ≡ some uid
      → Own p.tags
      → Ensures Made Failed
          (λ v. Holds v none)
          (post_request N c N.decode_created [] path (addresses (p ∷ [])) (200 ∷ 201 ∷ []))
  unfolding post_request do_request http_request
  created path p named (t, among, own) =
      Ensures-bind (λ u v. Holds v none) Made Failed
        (wrapping (wrap _) (lift (N.check_url (c.base_url <> path)))) _
        (λ w h.
          After-weaken (λ u v. Holds v none) (λ u v. Holds v none) (λ e v. Holds v none) Failed _ w
            (λ u q. q) (λ e q. inl q) (After-any (λ v. Holds v none) _ w h))
        (λ u.
          Ensures-bind (λ resp v. Creation Holds N (ok resp) v) Made Failed
            (N.send (http_request N c post path [] (some (addresses (p ∷ []))))) _
            (λ w h.
              sent (N.send (http_request N c post path [] (some (addresses (p ∷ [])))) w).0
                (N.send (http_request N c post path [] (some (addresses (p ∷ [])))) w).1
                (S.creating (http_request N c post path [] (some (addresses (p ∷ [])))) p t w refl
                  refl named among own h))
            (λ resp w k. read _ resp w k))

  -- An allocation fails and has made the record, or has made none.
  abbrev Unmade : Error → W → Type 0
  Unmade e w =
      Holds w none ⊎ ((is_no_available_ip e ≡ false) × ((a : AllocatedAddress) × Holds w (some a)))

  available : (e : Error) → as_api e ≡ none → is_no_available_ip_error N.unicode e ≡ false
  unfolding is_no_available_ip_error
  available e f = rw (f, is_no_available_ip_error) refl

  told : (id : ℤ) (e : Error) (w : W) → Failed e w → Unmade (allocation_error N c fuel id e) w
  told id e w (inl h) = inl h
  told id e w (inr (f, inl h)) = inl h
  told id e w (inr ((foreign, other), inr made)) = rw (available e foreign) (inr (other, made))

  chosen :
      (items : List NetBoxIpAddress) (w : W)
      → Made items w
      → After (λ a v. Holds v (some a)) Unmade (first_created items) w
  chosen items w (nothing e h) = rw e (inl h)
  chosen items w (record_of item more e h) = rw e h

  tagged :
      (req : AllocationRequest) (tags : List NetBoxTag)
      → Own tags
      → Own (allocation_payload req tags).tags
  unfolding allocation_payload
  tagged req tags o = o

  own :
      (req : AllocationRequest) (tags : List NetBoxTag) (w w1 : W)
      → req.ownership_tag ≡ tag
      → ensure_tags N c fuel (append_unique req.metadata.tags (req.ownership_tag ∷ [])) w
        ≡ (ok tags, w1)
      → Own tags
  own req tags w w1 et e =
      ensure_tags-own Holds N c fuel tag field uid S req.metadata.tags tags w w1 (rw et at e)

  -- An allocation under the claim's UID, where NetBox has no record of it.
  pub allocate-made :
      (id : ℤ) (req : AllocationRequest)
      → req.claim_uid_field_name ≡ field
      → req.claim_uid ≡ uid
      → req.ownership_tag ≡ tag
      → Ensures
          (λ a v. Holds v (some a))
          Unmade
          (λ v. Holds v none)
          (allocate_ip_address N c fuel id req)
  unfolding allocate_ip_address
  allocate-made id req ef eu et =
      let names = append_unique req.metadata.tags (req.ownership_tag ∷ []) in
      let path = "/api/ipam/prefixes/" <> format_int id <> "/available-ips/" in
      Ensures-bind (λ tags v. Own tags × Holds v none) (λ a v. Holds v (some a)) Unmade
        (wrapping (wrap "ensure tags") (ensure_tags N c fuel names)) _
        (Ensures-wrapping (λ tags v. Own tags × Holds v none) Unmade (wrap "ensure tags")
          (ensure_tags N c fuel names)
          (λ w h.
            let kept = (ensure_tags-Keeping Holds N c fuel tag field uid S none names).at w h in
            elim (Answered-cases (ensure_tags N c fuel names w)) [
              | inl (tags, (w1, e)) ↦ rw e (own req tags w w1 et e, rw e at kept)
              | inr (x, (w1, e)) ↦ rw e (inl (rw e at kept))
            ]))
        (λ tags.
          Ensures-bind Made (λ a v. Holds v (some a)) Unmade
            (wrapping (allocation_error N c fuel id) (
              post_request N c N.decode_created [] path
                (addresses (allocation_payload req tags ∷ [])) (200 ∷ 201 ∷ [])))
            _
            (Ensures-wrapping Made Unmade (allocation_error N c fuel id)
              (post_request N c N.decode_created [] path
                (addresses (allocation_payload req tags ∷ [])) (200 ∷ 201 ∷ []))
              (λ w (o, h).
                After-weaken Made Made Failed (λ e. Unmade (allocation_error N c fuel id e)) _ _
                  (λ items q. q) (λ e q. told id e _ q)
                  (created path (allocation_payload req tags) (named req tags ef eu)
                    (tagged req tags o) w h)))
            (λ items w q. chosen items w q))
    where
      named :
          (r : AllocationRequest) (tags : List NetBoxTag)
          → r.claim_uid_field_name ≡ field
          → r.claim_uid ≡ uid
          → lookup field (allocation_payload r tags).custom_fields ≡ some uid
      named r tags f u = rw (sym f, sym u) (lookup-allocation_payload r tags)
