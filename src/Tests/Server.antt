-- ===== src/Tests/Server.antt =====
-- An example of a server that keeps its promises: it has the record of one claim, or it has none.
use cluster_api_ipam_provide.Base.{
  Bool, true, false, List, [], ◌∷◌, Option, none, some, Result, ok, ◌≡◌, ◌=ˢ◌, if◌then◌else◌,
  Effect,
}
use cluster_api_ipam_provide.Base.Errors.{Error}
use cluster_api_ipam_provide.Base.Int.{pos}
use cluster_api_ipam_provide.Cluster.{Kube}
use cluster_api_ipam_provide.Netbox.Wire.{
  Network, Response, Method, get, post, delete, Payload, a_tag, addresses, NetBoxIpAddress,
}
use cluster_api_ipam_provide.Netbox.Client.Addresses.{map_ip_address}
use cluster_api_ipam_provide.Netbox.Client.Interface.{new_client}
use cluster_api_ipam_provide.Controller.Handler.{Adapter}
use cluster_api_ipam_provide.Controller.Ledger.{Ledger}
use cluster_api_ipam_provide.Controller.Ledger.Implementation.{Server}
use cluster_api_ipam_provide.Tests.World.{netip, a_pool, a_claim, set_address, netbox_secret, ascii}
use cluster_api_ipam_provide.Tests.Client.{response, own_record, own_tag}

-- whether the record is there
abbrev Present : Type 0
Present = Bool

abbrev read : {B : Type 0} → B → Effect Present Error B
read b w = (ok b, w)

abbrev posted : Option Payload → Present → Result Error Response × Present
posted none w = (ok (response 200 ""), w)
posted (some (a_tag t)) w = (ok (response 201 t.name), w)
posted (some (addresses ps)) w = (ok (response 201 "created"), true)

abbrev send_by : Method → Option Payload → Present → Result Error Response × Present
send_by get body true = (ok (response 200 "one"), true)
send_by get body false = (ok (response 200 "none"), false)
send_by post body w = posted body w
send_by delete body w = (ok (response 204 ""), false)

abbrev server : Network Present
server = record {
  send = λ request. send_by request.method request.body;
  check_url = λ url. ok tt;
  parse_url = λ url. ok (record { scheme = "https"; host = "netbox"; path = url; query = [] });
  decode_prefixes = λ body. ok (record { next = ""; results = [] });
  decode_addresses =
      λ body. ok (record { next = ""; results = if body =ˢ "one" then own_record ∷ [] else [] });
  decode_tags = λ body. ok (record { next = ""; results = own_tag ∷ [] });
  decode_custom_fields = λ body. ok (record { next = ""; results = record { name = "uid" } ∷ [] });
  decode_tag = λ body. ok (record { name = body; slug = body });
  decode_created = λ body. ok (own_record ∷ []);
  unicode = ascii;
  build = record { git_version = "dev"; os = "linux"; arch = "amd64"; go_version = "go" };
}

abbrev record_at : Present → Ledger
record_at true = some (map_ip_address own_record)
record_at false = none

abbrev Is : Present → Ledger → Type 0
Is w l = record_at w ≡ l

-- What the server answers to a request for addresses.
abbrev records_at : Present → List NetBoxIpAddress
records_at true = own_record ∷ []
records_at false = []

abbrev cluster : Kube Present
cluster = record {
  get_secret = λ namespace name. read netbox_secret;
  get_claim = λ namespace name. read a_claim;
  get_netbox_ip_pool = λ namespace name. read a_pool;
  get_global_netbox_ip_pool = λ name. read a_pool;
  get_address = λ namespace name. read set_address;
  list_addresses = λ index namespace. read [];
  list_claims = λ name. read [];
  patch_address = λ before after. read tt;
  delete_address = λ address. read tt;
  patch_claim = λ before after. read tt;
  new_claim_helper = λ claim. ok tt;
  new_pool_helper = λ pool. ok tt;
  patch_pool = λ before after. read tt;
  get_cluster_by_name = λ namespace name. read (record { paused = false });
  get_cluster_from_metadata = λ claim. read (record { paused = false });
  record_event = λ event w. w;
}

abbrev networked : Adapter Present
networked = record {
  kube = cluster;
  netip = netip;
  unmarshal = λ s. ok [];
  new_client = new_client (λ pem. true) (λ http. server) 2;
  request_timeout = pos 1;
}
