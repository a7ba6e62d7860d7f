-- ===== src/Netbox/Client/Server.antt =====
-- What a NetBox server promises to the requests of the client, as far as one record is concerned: that of a
-- claim's UID, in the custom field of that name, among the addresses with the ownership tag.
pub mod Answers
pub mod Listing
pub mod Tagging
pub mod Reading
pub mod Finding
pub mod Creating
pub mod Removing
use cluster_api_ipam_provide.Base.{
  ℕ, String, Bool, true, false, List, [], ◌∷◌, ◌++◌, Option, none, some, Result, ok, err, ◌≡◌, ◌≢◌,
  ◌⊎◌, ◌<>◌,
}
use mathlib.Core.List.{Memᴰ}
use cluster_api_ipam_provide.Base.Text.{is_empty, trim_space}
use cluster_api_ipam_provide.Base.Dict.{lookup}
use cluster_api_ipam_provide.Base.Errors.{Error, as_api, is_no_available_ip}
use cluster_api_ipam_provide.Base.Int.{ℤ}
use cluster_api_ipam_provide.Netbox.Numbers.{format_int}
use cluster_api_ipam_provide.Netbox.Config.{Url}
use cluster_api_ipam_provide.Netbox.Gateway.{FieldValue, null, text}
use cluster_api_ipam_provide.Netbox.Wire.{
  Network, Request, Response, get, post, delete, a_tag, addresses, NetBoxTag, NetBoxIpAddress,
  AddressPayload, AllocatedAddress, ListResponse,
}
use cluster_api_ipam_provide.Netbox.Client.{ApiClient, contains_status}
use cluster_api_ipam_provide.Netbox.Client.Addresses.{map_ip_address}

-- An error that neither stands for an answer of NetBox nor for a prefix that is full.
abbrev pub IsForeign : Error → Type 0
IsForeign e = (as_api e ≡ none) × (is_no_available_ip e ≡ false)

module _ {W : Type 0} (N : Network W) (c : ApiClient) where
  -- A request for a listing of addresses, and the page of them that it is answered with; a body that is
  -- empty is a page of nothing.
  pub record Served (path : String) (query : List (String × String)) (w w' : W)
      (page : ListResponse NetBoxIpAddress) : Type 0 where
    pub request : Request
    pub method : request.method ≡ get
    pub url : request.url ≡ c.base_url <> path
    pub asked : request.query ≡ query
    pub response : Response
    pub sent : N.send request w ≡ (ok response, w')
    pub success : response.status_code ≡ 200
    pub body : String
    pub received : response.body ≡ ok body
    pub decoded :
        ((is_empty body ≡ true) × (page ≡ record { next = ""; results = [] }))
        ⊎ ((is_empty body ≡ false) × (N.decode_addresses body ≡ ok page))

  -- All that the server lists for a path and a query, page after page: each page's `next` is the URL of
  -- the next one, and the last page has none.
  pub data Listed (w' : W)
      : W → String → List (String × String) → List NetBoxIpAddress → Type 0 where
    last :
        (w : W) (path : String) (query : List (String × String))
        (page : ListResponse NetBoxIpAddress)
        → Served path query w w' page
        → is_empty page.next ≡ true
        → Listed w' w path query page.results
    more :
        (w w1 : W) (path : String) (query : List (String × String))
        (page : ListResponse NetBoxIpAddress) (url : Url) (rest : List NetBoxIpAddress)
        → Served path query w w1 page
        → is_empty page.next ≡ false
        → N.parse_url page.next ≡ ok url
        → Listed w' w1 url.path url.query rest
        → Listed w' w path query (page.results ++ rest)

-- The value of a custom field that is a text.
pub data IsText : Option FieldValue → Type 0 where
  unset : IsText none
  cleared : IsText (some null)
  given : (value : String) → IsText (some (text value))

module _ (field uid : String) where
  -- The record has the claim's UID in the custom field.
  abbrev pub Names : NetBoxIpAddress → Type 0
  Names item = lookup field item.custom_fields ≡ some (text uid)

  -- Among the addresses is the record `o` of the claim's UID, if there is one, and no other record has
  -- that UID; the custom field is a text field.
  pub record HasRecord (o : Option AllocatedAddress) (items : List NetBoxIpAddress) : Type 0 where
    pub texts :
        (item : NetBoxIpAddress) → Memᴰ item items → IsText (lookup field item.custom_fields)
    pub only :
        (item : NetBoxIpAddress) → Memᴰ item items → Names item → o ≡ some (map_ip_address item)
    pub present :
        (a : AllocatedAddress)
        → o ≡ some a
        → (item : NetBoxIpAddress) × Memᴰ item items × Names item

module _ {W : Type 0} (Holds : W → Option AllocatedAddress → Type 0) where
  -- The record was made, or it was not.
  abbrev pub Uncertain : W → Type 0
  Uncertain w = Holds w none ⊎ ((a : AllocatedAddress) × Holds w (some a))

  -- The answers to a request for a free address, with the state after it. An error of the network, or a
  -- success that cannot be read, leaves it open whether the record was made; any other status, and a
  -- success that lists nothing, mean that it was not, and else a success tells the record.
  pub data Creation (N : Network W) : Result Error Response → W → Type 0 where
    unsent : (e : Error) (w : W) → IsForeign e → Uncertain w → Creation N (err e) w
    refused :
        (resp : Response) (w : W)
        → contains_status (200 ∷ 201 ∷ []) resp.status_code ≡ false
        → Holds w none
        → Creation N (ok resp) w
    unread :
        (resp : Response) (w : W) (e : Error)
        → resp.body ≡ err e
        → IsForeign e
        → Uncertain w
        → Creation N (ok resp) w
    garbled :
        (resp : Response) (w : W) (body : String) (e : Error)
        → contains_status (200 ∷ 201 ∷ []) resp.status_code ≡ true
        → resp.body ≡ ok body
        → is_empty body ≡ false
        → N.decode_created body ≡ err e
        → IsForeign e
        → Uncertain w
        → Creation N (ok resp) w
    created :
        (resp : Response) (w : W) (body : String) (item : NetBoxIpAddress)
        (items : List NetBoxIpAddress)
        → contains_status (200 ∷ 201 ∷ []) resp.status_code ≡ true
        → resp.body ≡ ok body
        → is_empty body ≡ false
        → N.decode_created body ≡ ok (item ∷ items)
        → Holds w (some (map_ip_address item))
        → Creation N (ok resp) w
    nothing :
        (resp : Response) (w : W) (body : String)
        → contains_status (200 ∷ 201 ∷ []) resp.status_code ≡ true
        → resp.body ≡ ok body
        → (is_empty body ≡ true) ⊎ ((is_empty body ≡ false) × (N.decode_created body ≡ ok []))
        → Holds w none
        → Creation N (ok resp) w

  -- The answers to the deletion of the record `a`: 204, and 404, mean that there is no such record.
  pub data Removal (a : AllocatedAddress) : Result Error Response → W → Type 0 where
    unsent :
        (e : Error) (w : W)
        → as_api e ≡ none
        → Holds w none ⊎ Holds w (some a)
        → Removal a (err e) w
    gone : (resp : Response) (w : W) → Holds w none → Removal a (ok resp) w
    refused :
        (resp : Response) (w : W)
        → contains_status (204 ∷ 404 ∷ []) resp.status_code ≡ false
        → ((e : Error) → resp.body ≡ err e → as_api e ≡ none)
        → Holds w none ⊎ Holds w (some a)
        → Removal a (ok resp) w

  -- `Holds w o`: in the state `w` the record is `o`.
  pub record Serves (N : Network W) (c : ApiClient) (tag field uid : String) : Type 0 where
    -- The ownership tag is a name, with no space around it, and the UID is not what a missing value is
    -- printed as.
    pub tag_full : is_empty tag ≡ false
    pub tag_trimmed : trim_space tag ≡ tag
    pub uid_proper : uid ≢ "<nil>"
    pub urls : (url : String) (e : Error) → N.check_url url ≡ err e → as_api e ≡ none
    pub reading :
        (r : Request) (o : Option AllocatedAddress) (w : W)
        → r.method ≡ get
        → Holds w o
        → Holds (N.send r w).1 o
    pub tagging :
        (r : Request) (t : NetBoxTag) (o : Option AllocatedAddress) (w : W)
        → r.method ≡ post
        → r.body ≡ some (a_tag t)
        → Holds w o
        → Holds (N.send r w).1 o
    -- A tag that is made has the name that was asked for.
    pub naming :
        (r : Request) (t made : NetBoxTag) (w w' : W) (resp : Response) (body : String)
        → r.method ≡ post
        → r.body ≡ some (a_tag t)
        → N.send r w ≡ (ok resp, w')
        → resp.body ≡ ok body
        → N.decode_tag body ≡ ok made
        → made.name ≡ t.name
    -- The pages of addresses with the tag have the record among them, if there is one.
    pub listing :
        (o : Option AllocatedAddress) (w w' : W) (items : List NetBoxIpAddress)
        → Holds w o
        → Listed N c w' w "/api/ipam/ip-addresses/" (("tag", tag) ∷ []) items
        → HasRecord field uid o items
    -- A record that is made under the claim's UID and with the ownership tag is the claim's record.
    pub creating :
        (r : Request) (p : AddressPayload) (t : NetBoxTag) (w : W)
        → r.method ≡ post
        → r.body ≡ some (addresses (p ∷ []))
        → lookup field p.custom_fields ≡ some uid
        → Memᴰ t p.tags
        → t.name ≡ tag
        → Holds w none
        → Creation N (N.send r w).0 (N.send r w).1
    pub removing :
        (r : Request) (a : AllocatedAddress) (w : W)
        → r.method ≡ delete
        → r.url ≡ c.base_url <> ("/api/ipam/ip-addresses/" <> format_int a.id <> "/")
        → Holds w (some a)
        → Removal a (N.send r w).0 (N.send r w).1
    pub removing_another :
        (r : Request) (w : W) → r.method ≡ delete → Holds w none → Holds (N.send r w).1 none
