-- ===== src/Netbox/Wire.antt =====
-- What the NetBox client sends and receives (internal/netbox/client.go), and the network, the JSON
-- decoders and the parser of URLs that it stands on.
use cluster_api_ipam_provide.Base.{ℕ, String, List, Option, Result, Effect}
use cluster_api_ipam_provide.Base.Dict.{Dict}
use cluster_api_ipam_provide.Base.Errors.{Error}
use cluster_api_ipam_provide.Base.Int.{ℤ}
use cluster_api_ipam_provide.Api.{NetBoxPrefixReference}
use cluster_api_ipam_provide.Netbox.Config.{Url}
use cluster_api_ipam_provide.Netbox.Gateway.{FieldValue}
use cluster_api_ipam_provide.Netbox.Metadata.{EffectiveMetadata}
use cluster_api_ipam_provide.Netbox.Slug.{Unicode}

pub record PrefixDetail : Type 0 where
  pub id : ℤ
  pub cidr : String
  pub custom_fields : Dict FieldValue

pub record AllocationRequest : Type 0 where
  pub metadata : EffectiveMetadata
  pub ownership_tag : String
  pub claim_uid_field_name : String
  pub claim_uid : String
  pub description : String
  pub status : String

pub record AllocatedAddress : Type 0 where
  pub id : ℤ
  pub address : String
  pub prefix : ℤ
  pub dns_name : String

-- `netBoxListResponse`; its count is never read
pub record ListResponse (A : Type 0) : Type 0 where
  pub next : String
  pub results : List A

pub record NetBoxTag : Type 0 where
  pub name : String
  pub slug : String

pub record NetBoxPrefix : Type 0 where
  pub id : ℤ
  pub prefix : String
  pub custom_fields : Dict FieldValue

-- The status and the tags of an address are never read.
pub record NetBoxIpAddress : Type 0 where
  pub id : ℤ
  pub address : String
  pub dns_name : String
  pub custom_fields : Dict FieldValue

pub record NetBoxCustomField : Type 0 where
  pub name : String

-- The JSON object of an allocation; an absent key is `none`.
pub record AddressPayload : Type 0 where
  pub status : String
  pub description : String
  pub custom_fields : Dict String
  pub tags : List NetBoxTag
  pub dns_name : Option String
  pub tenant : Option ℤ
  pub vrf : Option ℤ

-- A request's body, before `json.Marshal`, which does not fail on these.
pub data Payload : Type 0 where
  a_tag : NetBoxTag → Payload
  addresses : List AddressPayload → Payload

pub data Method : Type 0 where
  get post delete : Method

-- The query of a URL is kept as the pairs that `url.Values.Encode` escapes.
pub record Request : Type 0 where
  pub method : Method
  pub url : String
  pub query : List (String × String)
  pub headers : List (String × String)
  pub body : Option Payload

pub record Response : Type 0 where
  pub status_code : ℕ
  pub status : String
  -- what `io.ReadAll` gives
  pub body : Result Error String

-- `runtime.GOOS`, `GOARCH`, `Version()` and the stamped `gitVersion` of internal/version
pub record Build : Type 0 where
  pub git_version : String
  pub os : String
  pub arch : String
  pub go_version : String

-- Everything outside the client, over the states `W` of the world.
pub record Network (W : Type 0) : Type 0 where
  -- `http.Client.Do`
  pub send : Request → Effect W Error Response
  -- whether `http.NewRequestWithContext` takes an endpoint
  pub check_url : String → Result Error (Unit {0})
  -- `url.Parse`
  pub parse_url : String → Result Error Url
  -- `json.Unmarshal` into each type of response
  pub decode_prefixes : String → Result Error (ListResponse NetBoxPrefix)
  pub decode_addresses : String → Result Error (ListResponse NetBoxIpAddress)
  pub decode_tags : String → Result Error (ListResponse NetBoxTag)
  pub decode_custom_fields : String → Result Error (ListResponse NetBoxCustomField)
  pub decode_tag : String → Result Error NetBoxTag
  pub decode_created : String → Result Error (List NetBoxIpAddress)
  pub unicode : Unicode
  pub build : Build

-- The interface `Client`, which the controllers use.
pub record Client (W : Type 0) : Type 0 where
  pub resolve_prefix_ids : List NetBoxPrefixReference → Effect W Error (List ℤ)
  pub get_prefix_details : List ℤ → Effect W Error (List PrefixDetail)
  pub ensure_ip_address_custom_field : String → Effect W Error (Unit {0})
  pub allocate_ip_address : ℤ → AllocationRequest → Effect W Error AllocatedAddress
  pub find_ip_address_by_claim_uid :
      (ownership_tag field_name claim_uid : String) → Effect W Error (Option AllocatedAddress)
  pub find_ip_address_by_address :
      (ownership_tag address : String) → Effect W Error (Option AllocatedAddress)
  pub delete_ip_address : ℤ → Effect W Error (Unit {0})
