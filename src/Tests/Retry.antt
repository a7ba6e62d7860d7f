-- ===== src/Tests/Retry.antt =====
-- An example of a retry, over a NetBox that keeps one record: the world is that record, if there is one.
use cluster_api_ipam_provide.Controller.ResolvedPrefixes.{
  gateway_for_prefix_id, gateway_for_address,
}
use cluster_api_ipam_provide.Netbox.Metadata.{effective_pool_metadata}
use cluster_api_ipam_provide.Base.Dict.{lookup}
use cluster_api_ipam_provide.Base.{
  false, [], ◌∷◌, Option, none, some, Result, ok, ◌≡◌, refl, sym, ap, ◌∙◌, Effect, ok_injective,
}
use cluster_api_ipam_provide.Base.Errors.{Error}
use cluster_api_ipam_provide.Base.Int.{pos}
use cluster_api_ipam_provide.Api.{IpAddress}
use cluster_api_ipam_provide.Cluster.{Kube}
use cluster_api_ipam_provide.Netbox.Config.{load_connection_config, connection_config}
use cluster_api_ipam_provide.Netbox.Wire.{Client, AllocatedAddress}
use cluster_api_ipam_provide.Controller.Handler.{
  Adapter, with_address, ensure_address, obtain_address, connect, allocate_new, allocate_from,
  with_gateway, gateway_details, reuse,
}
use cluster_api_ipam_provide.Controller.Handler.Retry.{Remembers, ensure_address_retry}
use cluster_api_ipam_provide.Tests.World.{
  netip, a_pool, a_claim, unset_address, set_address, netbox_secret, allocated,
}

abbrev pub Memory : Type 0
Memory = Option AllocatedAddress

-- a call that only reads
abbrev read : {B : Type 0} → B → Effect Memory Error B
read b w = (ok b, w)

abbrev cluster : Kube Memory
cluster = record {
  get_secret = λ namespace name. read netbox_secret;
  get_claim = λ namespace name. read a_claim;
  get_netbox_ip_pool = λ namespace name. read a_pool;
  get_global_netbox_ip_pool = λ name. read a_pool;
  get_address = λ namespace name. read set_address;
  list_addresses = λ index namespace. read [];
  list_claims = λ name. read [];
  patch_address = λ before after. read tt;
  delete_address = λ address. read tt;
  patch_claim = λ before after. read tt;
  new_claim_helper = λ claim. ok tt;
  new_pool_helper = λ pool. ok tt;
  patch_pool = λ before after. read tt;
  get_cluster_by_name = λ namespace name. read (record { paused = false });
  get_cluster_from_metadata = λ claim. read (record { paused = false });
  record_event = λ event w. w;
}

abbrev pub server : Client Memory
server = record {
  resolve_prefix_ids = λ refs. read (pos 7 ∷ []);
  get_prefix_details = λ ids. read [];
  ensure_ip_address_custom_field = λ name. read tt;
  allocate_ip_address = λ id request w. (ok allocated, some allocated);
  find_ip_address_by_claim_uid = λ tag field uid w. (ok w, w);
  find_ip_address_by_address = λ tag address w. (ok w, w);
  delete_ip_address = λ id w. (ok tt, none);
}

abbrev pub provider : Adapter Memory
provider = record {
  kube = cluster;
  netip = netip;
  unmarshal = λ s. ok [];
  new_client = λ cfg. ok server;
  request_timeout = pos 1;
}

abbrev Recorded : Memory → AllocatedAddress → Type 0
Recorded w a = w ≡ some a

pub made :
    (client : Client Memory)
    → ◌≡◌ {A = Result Error (Client Memory)} (ok server) (ok client)
    → server ≡ client
made client e = cc

found_now :
    {w w' : Memory} {o : Option AllocatedAddress}
    → ◌≡◌ {A = Result Error (Option AllocatedAddress) × Memory} (ok w, w) (ok o, w')
    → (w ≡ o) × (w ≡ w')
found_now h = ok_injective h

server-Remembers : Remembers provider a_claim a_pool Recorded
server-Remembers = record {
  secret = λ namespace name w a h. h;
  resolving = λ cfg client refs w a e h. rw (sym (made client e)) h;
  details = λ cfg client ids w a e h. rw (sym (made client e)) h;
  finds = λ cfg client w w' a o e h k.
      (let (same, world) = found_now (rw (sym (made client e)) at k) in sym same ∙ h);
  found = λ cfg client w w' a e k.
      (let (same, world) = found_now (rw (sym (made client e)) at k) in sym world ∙ same);
  allocates = λ cfg client metadata id w w' a e k.
      (let k' = rw (sym (made client e)) at k in
        let (same, world) = ok_injective k' in sym world ∙ ap some same);
}

abbrev result : IpAddress
result = with_address provider a_claim a_pool unset_address allocated "g7"

abbrev result_again : IpAddress
result_again = with_address provider a_claim a_pool unset_address allocated ""

ensure_address_retry_example :
    (result_again.address ≡ result.address) × (result_again.prefix ≡ result.prefix)
unfolding ensure_address obtain_address connect load_connection_config connection_config lookup
    allocate_new effective_pool_metadata allocate_from with_gateway gateway_for_prefix_id
    gateway_details reuse gateway_for_address
ensure_address_retry_example =
    ensure_address_retry provider a_claim a_pool Recorded server-Remembers unset_address
      unset_address result result_again none (some allocated) (some allocated) refl refl refl refl
