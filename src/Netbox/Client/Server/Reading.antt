-- ===== src/Netbox/Client/Server/Reading.antt =====
-- The operations of the client that leave a claim's record alone, on a server that does.
use cluster_api_ipam_provide.Base.{
  ℕ, zero, suc, String, List, [], ◌∷◌, Option, none, some, Result, refl, ◌<>◌, inl, inr, lift,
  wrapping, Keeping, keeping_rules, Keeping-bind, Keeping-if, Keeping-wrapping, Option-cases,
}
use cluster_api_ipam_provide.Base.Errors.{Error, wrap}
use cluster_api_ipam_provide.Base.Int.{ℤ}
use cluster_api_ipam_provide.Api.{NetBoxPrefixReference}
use cluster_api_ipam_provide.Netbox.Slug.{slugify_tag}
use cluster_api_ipam_provide.Netbox.Wire.{
  Network, ListResponse, Payload, Method, get, post, a_tag, AllocatedAddress,
}
use cluster_api_ipam_provide.Netbox.Client.{
  ApiClient, http_request, do_request, post_request, get_page, list_from, list_all,
}
use cluster_api_ipam_provide.Netbox.Client.Tags.{create_tag, ensure_tag, ensure_tags, tag_named}
use cluster_api_ipam_provide.Netbox.Client.Prefixes.{
  resolve_by_cidr, id_or_cidr, resolve_reference, resolve_prefix_ids, get_prefix_details,
  ensure_ip_address_custom_field,
}
use cluster_api_ipam_provide.Netbox.Client.Addresses.{tagged_addresses, find_ip_address_by_address}
use cluster_api_ipam_provide.Netbox.Client.Server.{Serves}

module _ {W : Type 0} (Holds : W → Option AllocatedAddress → Type 0) (N : Network W) (c : ApiClient)
    (fuel : ℕ) (tag field uid : String) (S : Serves Holds N c tag field uid)
    (o : Option AllocatedAddress) where
  -- the record is `o`
  abbrev pub Is : W → Type 0
  Is w = Holds w o

  module _ {A : Type 0} (decode : String → Result Error A) (unset : A) where
    pub do_request-Keeping :
        (method : Method) (path : String) (query : List (String × String)) (body : Option Payload)
        (expected : List ℕ)
        → Keeping Is (N.send (http_request N c method path query body))
        → Keeping Is (do_request N c decode unset method path query body expected)
    unfolding do_request
    do_request-Keeping method path query body expected k =
        Keeping-bind (wrapping (wrap _) (lift (N.check_url (c.base_url <> path)))) _
          (search keeping_rules) (λ u. search (keeping_rules, k))

  module _ {A : Type 0} (decode : String → Result Error (ListResponse A)) where
    get_page-Keeping :
        (path : String) (query : List (String × String))
        → Keeping Is (get_page N c decode path query)
    unfolding get_page http_request
    get_page-Keeping path query =
        do_request-Keeping decode (record { next = ""; results = [] }) get path query none
          (200 ∷ [])
          (record { at = λ w h. S.reading (http_request N c get path query none) o w refl h })

    list_from-Keeping :
        (n : ℕ) (all : List A) (path : String) (query : List (String × String))
        → Keeping Is (list_from N c decode n all path query)
    unfolding list_from
    list_from-Keeping zero all path query = search keeping_rules
    list_from-Keeping (suc n) all path query =
        search (keeping_rules, get_page-Keeping, list_from-Keeping n)

    pub list_all-Keeping :
        (path : String) (query : List (String × String))
        → Keeping Is (list_all N c decode fuel path query)
    unfolding list_all
    list_all-Keeping path query = list_from-Keeping fuel [] path query

  create_tag-Keeping : (name : String) → Keeping Is (create_tag N c fuel name)
  unfolding create_tag post_request http_request
  create_tag-Keeping name =
      let slug = slugify_tag N.unicode name in
      let posted =
        do_request-Keeping N.decode_tag (record { name = ""; slug = "" }) post "/api/extras/tags/"
          [] (some (a_tag (record { name = name; slug = slug }))) (201 ∷ [])
          (record {
            at = λ w h. S.tagging _ (record { name = name; slug = slug }) o w refl refl h;
          }) in
      Keeping-bind _ _ (Keeping-wrapping _ _ posted) (λ created. search keeping_rules)

  pub ensure_tag-Keeping : (name : String) → Keeping Is (ensure_tag N c fuel name)
  unfolding ensure_tag
  ensure_tag-Keeping name =
      Keeping-bind
        (wrapping (wrap ("list tag " <> name))
          (list_all N c N.decode_tags fuel "/api/extras/tags/" (("name", name) ∷ [])))
        _ (search (keeping_rules, list_all-Keeping N.decode_tags))
        (λ results. elim (Option-cases (tag_named name results)) [
          | inl absent ↦ rw absent (create_tag-Keeping name)
          | inr (t, present) ↦ rw present (search keeping_rules)
        ])

  pub ensure_tags-Keeping : (names : List String) → Keeping Is (ensure_tags N c fuel names)
  unfolding ensure_tags
  ensure_tags-Keeping [] = search keeping_rules
  ensure_tags-Keeping (name ∷ names) =
      let rest = ensure_tags-Keeping names in
      Keeping-if _ _ _ rest
        (Keeping-bind _ _ (ensure_tag-Keeping _) (λ t. search (keeping_rules, rest)))

  id_or_cidr-Keeping :
      (ref : NetBoxPrefixReference) (id : Option ℤ) → Keeping Is (id_or_cidr N c fuel ref id)
  unfolding resolve_by_cidr
  id_or_cidr-Keeping ref (some id) = search keeping_rules
  id_or_cidr-Keeping ref none = search (keeping_rules, list_all-Keeping N.decode_prefixes)

  pub resolve_prefix_ids-Keeping :
      (refs : List NetBoxPrefixReference) → Keeping Is (resolve_prefix_ids N c fuel refs)
  unfolding resolve_prefix_ids resolve_reference
  resolve_prefix_ids-Keeping [] = search keeping_rules
  resolve_prefix_ids-Keeping (ref ∷ refs) =
      Keeping-bind _ _ (id_or_cidr-Keeping ref ref.id)
        (λ id. search (keeping_rules, resolve_prefix_ids-Keeping refs))

  pub get_prefix_details-Keeping : (ids : List ℤ) → Keeping Is (get_prefix_details N c fuel ids)
  unfolding get_prefix_details
  get_prefix_details-Keeping [] = search keeping_rules
  get_prefix_details-Keeping (id ∷ ids) = search (keeping_rules, list_all-Keeping N.decode_prefixes)

  pub custom_field-Keeping :
      (name : String) → Keeping Is (ensure_ip_address_custom_field N c fuel name)
  unfolding ensure_ip_address_custom_field
  custom_field-Keeping name = search (keeping_rules, list_all-Keeping N.decode_custom_fields)

  pub tagged_addresses-Keeping :
      (described t : String) (more : List (String × String))
      → Keeping Is (tagged_addresses N c fuel described t more)
  unfolding tagged_addresses
  tagged_addresses-Keeping described t more =
      search (keeping_rules, ensure_tag-Keeping, list_all-Keeping N.decode_addresses)

  pub find_by_address-Keeping :
      (t address : String) → Keeping Is (find_ip_address_by_address N c fuel t address)
  unfolding find_ip_address_by_address
  find_by_address-Keeping t address = search (keeping_rules, tagged_addresses-Keeping)
