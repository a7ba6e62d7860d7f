-- ===== src/Tests/World.antt =====
-- The objects, the cluster and the network of the examples. A state of the world is the number of the
-- calls that have been made.
use cluster_api_ipam_provide.Base.{
  ℕ, suc, String, true, false, [], ◌∷◌, none, some, Result, ok, err, ◌=ˢ◌, if◌then◌else◌, Effect,
  ◌<>◌,
}
use cluster_api_ipam_provide.Base.Dict.{Dict}
use cluster_api_ipam_provide.Base.Errors.{Error, message, no_available_ip, external}
use cluster_api_ipam_provide.Base.Int.{ℤ, pos, ◌==ℤ◌}
use cluster_api_ipam_provide.Api.{
  Pool, NetBoxIpPoolSpec, NetBoxIpPoolStatus, NetBoxMetadata, IpAddressClaim, IpAddress,
  OwnerReference, group, netbox_ip_pool_kind,
}
use cluster_api_ipam_provide.Cluster.{Kube, Controllerutil}
use cluster_api_ipam_provide.Netbox.Gateway.{Netip}
use cluster_api_ipam_provide.Controller.Handler.{Adapter}
use cluster_api_ipam_provide.Netbox.Slug.{Unicode}
use cluster_api_ipam_provide.Netbox.Wire.{Client, AllocatedAddress, AllocationRequest}

-- a call that counts
abbrev pub answer : {A : Type 0} → Result Error A → Effect ℕ Error A
answer r w = (r, suc w)

abbrev pub ascii : Unicode
ascii = record { lower = λ c. c; is_letter = λ c. false; is_digit = λ c. false }

-- Texts stand for addresses and prefixes; "v6" is the only address of the other family, and "in" the only one
-- that a prefix contains.
abbrev pub netip : Netip
netip = record {
  Addr = String;
  Prefix = String;
  parse_addr = λ s. if s =ˢ "bad" then err (external "bad address") else ok s;
  is4 = λ a. if a =ˢ "v6" then false else true;
  addr_string = λ a. a;
  parse_prefix = λ s. ok s;
  prefix_addr = λ p. p;
  contains = λ p a. a =ˢ "in";
}

abbrev pub no_metadata : NetBoxMetadata
no_metadata = record {
  tenant_id = none;
  vrf_id = none;
  dns_name = "";
  tags = [];
  custom_fields = [];
}

abbrev pub a_spec : NetBoxIpPoolSpec
a_spec = record {
  cluster_name = "";
  connection_secret_ref = record { name = "netbox"; namespace = "" };
  prefixes = record { id = some (pos 7); cidr = ""; vrf_id = none; gateway = "in" } ∷ [];
  metadata_defaults = no_metadata;
  ownership_tag = "owner";
  claim_uid_custom_field = "uid";
  ip_address_status = "";
  gateway = "";
  gateway_custom_field = "";
}

abbrev pub cold_status : NetBoxIpPoolStatus
cold_status = record {
  observed_generation = pos 1;
  addresses = none;
  resolved_prefixes = [];
  resolved_prefix_details = [];
  conditions = [];
}

abbrev pub warm_status : NetBoxIpPoolStatus
warm_status = record cold_status {
  resolved_prefixes = pos 7 ∷ pos 8 ∷ [];
  resolved_prefix_details =
      record { id = pos 7; cidr = "p7"; gateway = "g7" }
      ∷ record { id = pos 8; cidr = "p8"; gateway = "g8" }
      ∷ [];
}

abbrev pub a_pool : Pool
a_pool = record {
  gvk_group = group;
  gvk_version = "v1alpha1";
  gvk_kind = netbox_ip_pool_kind;
  namespace = "ns";
  name = "pool";
  generation = pos 1;
  deleting = false;
  finalizers = [];
  labels = [];
  annotations = [];
  spec = a_spec;
  status = warm_status;
}

abbrev pub a_claim : IpAddressClaim
a_claim = record {
  namespace = "ns";
  name = "c";
  uid = "u-1";
  deleting = false;
  finalizers = [];
  labels = [];
  annotations = [];
  cluster_name = "";
  pool_ref = record { api_group = group; kind = netbox_ip_pool_kind; name = "pool" };
  address_ref = "";
  ready = none;
}

abbrev pub unset_address : IpAddress
unset_address = record {
  namespace = "ns";
  name = "c";
  finalizers = [];
  labels = [];
  owner_references = [];
  claim_ref = "c";
  pool_ref = record { api_group = group; kind = netbox_ip_pool_kind; name = "pool" };
  address = "";
  prefix = none;
  gateway = "";
}

abbrev pub set_address : IpAddress
set_address = record unset_address { address = "10.0.0.9"; prefix = some (pos 24) }

abbrev pub netbox_secret : Dict String
netbox_secret = ("url", "https://netbox") ∷ ("token", "t") ∷ []

-- Each read finds the object above.
abbrev pub kube : Kube ℕ
kube = record {
  get_secret = λ namespace name. answer (ok netbox_secret);
  get_claim = λ namespace name. answer (ok a_claim);
  get_netbox_ip_pool = λ namespace name. answer (ok a_pool);
  get_global_netbox_ip_pool = λ name. answer (ok a_pool);
  get_address = λ namespace name. answer (ok set_address);
  list_addresses = λ index namespace. answer (ok (set_address ∷ []));
  list_claims = λ cluster. answer (ok (a_claim ∷ []));
  patch_address = λ before after. answer (ok tt);
  delete_address = λ address. answer (ok tt);
  patch_claim = λ before after. answer (ok tt);
  new_claim_helper = λ claim. ok tt;
  new_pool_helper = λ pool. ok tt;
  patch_pool = λ before after. answer (ok tt);
  get_cluster_by_name = λ namespace name. answer (ok (record { paused = true }));
  get_cluster_from_metadata = λ claim. answer (ok (record { paused = false }));
  record_event = λ event w. suc w;
}

abbrev pub pool_owner : OwnerReference
pool_owner = record {
  api_version = group <> "/v1alpha1";
  kind = netbox_ip_pool_kind;
  name = "pool";
  uid = "p";
  controller = none;
  block_owner_deletion = none;
}

abbrev pub claim_owner : OwnerReference
claim_owner = record pool_owner { kind = "IPAddressClaim"; name = "c"; controller = some true }

-- The mutate function is called once, and the object is written.
abbrev pub util : Controllerutil ℕ
util = record {
  add_finalizer = λ f fs. (f ∷ fs, true);
  remove_finalizer = λ f fs. ([], true);
  set_controller_reference = λ claim refs. ok (claim_owner ∷ []);
  set_owner_reference = λ pool refs. ok (claim_owner ∷ pool_owner ∷ []);
  has_paused = λ pool. false;
  create_or_patch = λ address mutate w.
      (let (m, w') = mutate address w in
        (
          record {
            address = m.address;
            operation = "created";
            requeue = m.requeue;
            error = m.error;
          },
          suc w',
        ));
  poll = λ condition w. (none, suc w);
}

abbrev pub allocated : AllocatedAddress
allocated = record { id = pos 5; address = "10.0.0.9"; prefix = pos 24; dns_name = "" }

-- Prefix 7 is full, and prefix 8 has an address.
abbrev pub allocate : ℤ → AllocationRequest → Effect ℕ Error AllocatedAddress
allocate id request = answer (if id ==ℤ pos 7 then err no_available_ip else ok allocated)

abbrev pub client : Client ℕ
client = record {
  resolve_prefix_ids = λ refs. answer (ok (pos 7 ∷ []));
  get_prefix_details = λ ids. answer (err (message "unreachable"));
  ensure_ip_address_custom_field = λ name. answer (ok tt);
  allocate_ip_address = allocate;
  find_ip_address_by_claim_uid = λ tag field uid. answer (ok none);
  find_ip_address_by_address = λ tag address. answer (ok (some allocated));
  delete_ip_address = λ id. answer (ok tt);
}

abbrev pub adapter : Adapter ℕ
adapter = record {
  kube = kube;
  netip = netip;
  unmarshal = λ s. ok (("cost", "1") ∷ []);
  new_client = λ cfg. ok client;
  request_timeout = pos 1;
}
