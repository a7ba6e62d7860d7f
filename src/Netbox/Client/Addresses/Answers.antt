-- ===== src/Netbox/Client/Addresses/Answers.antt =====
-- How NetBox's answers to an allocation and to a deletion are understood.
use cluster_api_ipam_provide.Base.{
  ℕ, String, Bool, true, false, ◌||◌, List, [], ◌∷◌, none, some, Result, ok, err, ◌≡◌, ◌⊎◌, ◌↔◌,
  inl, inr, refl, arith, ◌==◌, ◌<>◌, Bool-cases, if◌then◌else◌,
}
use cluster_api_ipam_provide.Base.Text.{contains}
use cluster_api_ipam_provide.Base.Errors.{Error, api, no_available_ip}
use cluster_api_ipam_provide.Base.Int.{ℤ}
use cluster_api_ipam_provide.Netbox.Numbers.{format_int}
use cluster_api_ipam_provide.Netbox.Slug.{to_lower}
use cluster_api_ipam_provide.Netbox.Wire.{
  Network, Response, delete, NetBoxTag, AllocationRequest, addresses, post,
}
use cluster_api_ipam_provide.Netbox.Client.{
  ApiClient, http_request, do_request, read_response, post_request, contains_status,
}
use cluster_api_ipam_provide.Netbox.Client.Tags.{append_unique, ensure_tags}
use cluster_api_ipam_provide.Netbox.Client.Addresses.{
  delete_ip_address, is_no_available_ip_error, allocate_ip_address, allocation_payload,
}

module _ {W : Type 0} (N : Network W) (c : ApiClient) (fuel : ℕ) where
  abbrev pub deletion_path : ℤ → String
  deletion_path id = "/api/ipam/ip-addresses/" <> format_int id <> "/"

  read_deletion :
      (described : String) (resp : Response) (body : String)
      → resp.body ≡ ok body
      → read_response N c {A = Unit {0}} (λ _. ok tt) tt described (204 ∷ 404 ∷ []) resp ≡ (
          if resp.status_code == 204 || resp.status_code == 404
          then ok tt
          else err (api resp.status_code resp.status body))
  unfolding read_response contains_status
  read_deletion described resp body readable = ground arith

  -- When the request of a deletion can be built, and NetBox answers it with a body that can be read,
  -- the deletion succeeds exactly if the answer is that the record is deleted, or that there is no such
  -- record: it may be tried again.
  pub delete_ip_address_iff :
      (id : ℤ) (w w' : W) (resp : Response) (body : String)
      → N.check_url (c.base_url <> deletion_path id) ≡ ok tt
      → N.send (http_request N c delete (deletion_path id) [] none) w ≡ (ok resp, w')
      → resp.body ≡ ok body
      → (delete_ip_address N c fuel id w ≡ (ok tt, w'))
        ↔ ((resp.status_code ≡ 204) ⊎ (resp.status_code ≡ 404))
  unfolding delete_ip_address do_request
  delete_ip_address_iff id w w' resp body valid sent readable = rw valid (
      rw sent (
        rw (read_deletion _ resp body readable) (elim (Bool-cases (resp.status_code == 204)) [
          | inl gone ↦ rw gone ((λ h. inl (ground arith)), (λ h. refl))
          | inr other ↦ elim (Bool-cases (resp.status_code == 404)) [
            | inl missing ↦ rw (other, missing) ((λ h. inr (ground arith)), (λ h. refl))
            | inr bad ↦ rw (other, bad) ((λ h. absurd (ground arith)), (λ h. absurd (ground arith)))
          ]
        ])))

  abbrev pub allocation_path : ℤ → String
  allocation_path prefix_id = "/api/ipam/prefixes/" <> format_int prefix_id <> "/available-ips/"

  -- NetBox's words for a prefix that has no free address, in small letters
  abbrev pub says_full : String → Bool
  says_full body =
      contains (to_lower N.unicode body) "available ip"
      || contains (to_lower N.unicode body) "available addresses"

  -- An answer that is an error and says that the prefix is full.
  abbrev pub IsFull : Response → String → Type 0
  IsFull resp body = ((resp.status_code ≡ 400) ⊎ (resp.status_code ≡ 409)) × (says_full body ≡ true)

  test-IsFull_iff :
      (resp : Response) (body : String)
      → (is_no_available_ip_error N.unicode (api resp.status_code resp.status body) ≡ true)
        ↔ IsFull resp body
  unfolding is_no_available_ip_error
  test-IsFull_iff resp body = (
    (λ h. (ground arith, ground arith)),
    (λ h. let (code, says) = h in elim code [ inl a ↦ ground arith | inr b ↦ ground arith ]),
  )

  read_refusal :
      {A : Type 0} (decode : String → Result Error A) (unset : A) (described : String)
      (resp : Response) (body : String)
      → resp.body ≡ ok body
      → contains_status (200 ∷ 201 ∷ []) resp.status_code ≡ false
      → read_response N c decode unset described (200 ∷ 201 ∷ []) resp
        ≡ err (api resp.status_code resp.status body)
  unfolding read_response
  read_refusal decode unset described resp body readable refused = rw readable (rw refused refl)

  -- When the tags of an allocation exist, its request can be built, and NetBox answers it with anything
  -- but success and a body that can be read, the allocation reports that the prefix has no free address
  -- exactly if the answer is 400 or 409 and its body says so.
  pub allocate_ip_address-IsFull_iff :
      (prefix_id : ℤ) (req : AllocationRequest) (tags : List NetBoxTag) (w w1 w' : W)
      (resp : Response) (body : String)
      → ensure_tags N c fuel (append_unique req.metadata.tags (req.ownership_tag ∷ [])) w
        ≡ (ok tags, w1)
      → N.check_url (c.base_url <> allocation_path prefix_id) ≡ ok tt
      → N.send
          (http_request N c post
            (allocation_path prefix_id)
            []
            (some (addresses (allocation_payload req tags ∷ []))))
          w1
        ≡ (ok resp, w')
      → resp.body ≡ ok body
      → contains_status (200 ∷ 201 ∷ []) resp.status_code ≡ false
      → (allocate_ip_address N c fuel prefix_id req w ≡ (err no_available_ip, w'))
        ↔ IsFull resp body
  unfolding allocate_ip_address post_request do_request
  allocate_ip_address-IsFull_iff prefix_id req tags w w1 w' resp body tagged valid sent readable
        refused =
      rw tagged (
        rw valid (
          rw sent (
            rw (read_refusal N.decode_created [] _ resp body readable refused)
              (elim (Bool-cases
                (is_no_available_ip_error N.unicode (api resp.status_code resp.status body))) [
                  | inl full ↦ rw full ((λ h. (test-IsFull_iff resp body).0 full), (λ h. refl))
                  | inr other ↦ rw other (
                    (λ h. absurd (cc)),
                    (λ h. absurd (let e = (test-IsFull_iff resp body).1 h in cc)),
                  )
                ]))))
