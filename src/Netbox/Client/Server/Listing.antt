-- ===== src/Netbox/Client/Server/Listing.antt =====
-- A listing of addresses that succeeds, on a server that keeps its promises: it has the claim's record.
use cluster_api_ipam_provide.Base.{
  ℕ, String, true, List, [], ◌∷◌, Option, none, some, ok, ◌≡◌, ◌≢◌, inl, inr, refl, sym, ap, ◌∙◌,
  arith, Option-cases,
}
use mathlib.Core.List.{Memᴰ}
use cluster_api_ipam_provide.Base.Dict.{lookup}
use cluster_api_ipam_provide.Netbox.Gateway.{FieldValue, null, text, other}
use cluster_api_ipam_provide.Netbox.Wire.{
  Network, get, NetBoxIpAddress, AllocatedAddress, ListResponse,
}
use cluster_api_ipam_provide.Netbox.Client.{
  ApiClient, http_request, get_page, contains_status, list_all,
}
use cluster_api_ipam_provide.Netbox.Client.Addresses.{first_with_claim_uid, printed_field}
use cluster_api_ipam_provide.Netbox.Client.Addresses.Own.{
  Chosen, nobody, here, later, first_with_claim_uid_iff,
}
use cluster_api_ipam_provide.Netbox.Client.Pages.{Pages, list_all_iff}
use cluster_api_ipam_provide.Netbox.Client.Server.{
  Served, Listed, IsText, unset, cleared, given, Names, HasRecord,
}
use cluster_api_ipam_provide.Netbox.Client.Server.Answers.{do_request-Read}

module _ {W : Type 0} (N : Network W) (c : ApiClient) where
  get_page-Served :
      (path : String) (query : List (String × String)) (page : ListResponse NetBoxIpAddress)
      (w w' : W)
      → get_page N c N.decode_addresses path query w ≡ (ok page, w')
      → Served N c path query w w' page
  unfolding get_page http_request contains_status
  get_page-Served path query page w w' h =
      let (response, sent, r) =
        do_request-Read N c N.decode_addresses (record { next = ""; results = [] }) get path query
          none (200 ∷ []) page w w' h in
      record {
        request = http_request N c get path query none;
        method = refl;
        url = refl;
        asked = refl;
        response = response;
        sent = sent;
        success = only_200 response.status_code r.success;
        body = r.body;
        received = r.received;
        decoded = r.decoded;
      }
    where
      only_200 : (n : ℕ) → contains_status (200 ∷ []) n ≡ true → n ≡ 200
      only_200 n e = ground arith

  Pages-Listed :
      {w' w : W} {n : ℕ} {path : String} {query : List (String × String)}
      {items : List NetBoxIpAddress}
      → Pages N c N.decode_addresses w' n w path query items
      → Listed N c w' w path query items
  Pages-Listed {w'} (Pages.last w path query page e done) =
      Listed.last w path query page (get_page-Served path query page w w' e) done
  Pages-Listed (Pages.more n w w1 path query page url rest e ne eu pages) =
      Listed.more w w1 path query page url rest (get_page-Served path query page w w1 e) ne eu
        (Pages-Listed pages)

  -- A listing that succeeds gives all that the server lists.
  pub list_all-Listed :
      (fuel : ℕ) (path : String) (query : List (String × String)) (items : List NetBoxIpAddress)
      (w w' : W)
      → list_all N c N.decode_addresses fuel path query w ≡ (ok items, w')
      → Listed N c w' w path query items
  list_all-Listed fuel path query items w w' h =
      let (n, le, pages) = (list_all_iff N c N.decode_addresses fuel path query items w w').0 h in
      Pages-Listed pages

module _ (field uid : String) where
  printed-text :
      (v : Option FieldValue)
      → IsText v
      → uid ≢ "<nil>"
      → printed_field v ≡ uid
      → v ≡ some (text uid)
  printed-text none unset proper e = absurd (proper (sym e))
  printed-text (some null) cleared proper e = absurd (proper (sym e))
  printed-text (some (text value)) (given _) proper e = ap (λ s. some (text s)) e
  printed-text (some (other printed)) text_field proper e = elim text_field [ ]

  HasRecord-rest :
      (o : Option AllocatedAddress) (item : NetBoxIpAddress) (items : List NetBoxIpAddress)
      → printed_field (lookup field item.custom_fields) ≢ uid
      → HasRecord field uid o (item ∷ items)
      → HasRecord field uid o items
  HasRecord-rest o item items lacks has = record {
    texts = λ x m. has.texts x (Memᴰ.tail m);
    only = λ x m. has.only x (Memᴰ.tail m);
    present = λ a e. let (x, m, named) = has.present a e in (x, in_rest x m named, named);
  }
    where
      in_rest : (x : NetBoxIpAddress) → Memᴰ x (item ∷ items) → Names field uid x → Memᴰ x items
      in_rest x (Memᴰ.tail m) named = m
      in_rest x (Memᴰ.head e) named = absurd (
          lacks (
            ap (λ (y : NetBoxIpAddress). printed_field (lookup field y.custom_fields)) (sym e)
            ∙ ap printed_field named))

  Chosen-HasRecord :
      {r o : Option AllocatedAddress} {items : List NetBoxIpAddress}
      → uid ≢ "<nil>"
      → Chosen field uid r items
      → HasRecord field uid o items
      → r ≡ o
  Chosen-HasRecord {r} {o} proper (nobody e) has = elim (Option-cases o) [
    | inl absent ↦ e ∙ sym absent
    | inr (a, there) ↦ let (x, m, named) = has.present a there in elim m [ ]
  ]
  Chosen-HasRecord proper (here item items carries e) has =
      let named = printed-text _ (has.texts item (Memᴰ.head refl)) proper carries in
      e ∙ sym (has.only item (Memᴰ.head refl) named)
  Chosen-HasRecord {r} {o} proper (later item items lacks chosen) has =
      Chosen-HasRecord proper chosen (HasRecord-rest o item items lacks has)

  -- The search among the addresses gives the record.
  pub first_with_claim_uid-record :
      (o : Option AllocatedAddress) (items : List NetBoxIpAddress)
      → uid ≢ "<nil>"
      → HasRecord field uid o items
      → first_with_claim_uid field uid items ≡ o
  first_with_claim_uid-record o items proper has =
      Chosen-HasRecord proper
        ((first_with_claim_uid_iff field uid items (first_with_claim_uid field uid items)).0 refl)
        has
