-- ===== src/Tests/Program.antt =====
-- Examples of the program as a whole: its flags, and a run that ends well.
use cluster_api_ipam_provide.Base.{ℕ, true, false, [], ◌∷◌, none, ok, err, ◌≡◌, ◌↔◌, refl}
use cluster_api_ipam_provide.Base.Dict.{lookup}
use cluster_api_ipam_provide.Base.Errors.{Error}
use cluster_api_ipam_provide.Base.Int.{pos}
use cluster_api_ipam_provide.Netbox.Config.{ConnectionConfig, HttpClient, new_http_client}
use cluster_api_ipam_provide.Api.Scheme.{
  SchemeLibrary, add_all, add_to_scheme, scheme_builder, register_global_netbox_ip_pool,
  register_netbox_ip_pool,
}
use cluster_api_ipam_provide.Manager.Config.{
  FlagLibrary, ManagerConfig, config_from, duration, is_positive, parse_flags, config_from,
}
use cluster_api_ipam_provide.Manager.Config.Timeout.{parsed_timeout_is_used}
use cluster_api_ipam_provide.Manager.Builder.{Manager}
use cluster_api_ipam_provide.Manager.Options.{new_scheme}
use cluster_api_ipam_provide.Manager.Setup.{
  setup_indexes, setup_controllers, setup_claim_reconciler, netbox_provider_adapter, adapter_setup,
  setup_netbox_ip_pool_reconciler, setup_global_netbox_ip_pool_reconciler, add_probes,
}
use cluster_api_ipam_provide.Manager.Main.{Environment, main, start_with, set_up_and_run}
use cluster_api_ipam_provide.Manager.Main.Exit.{Ran, main_exit_iff}
use cluster_api_ipam_provide.Tests.World.{kube, util, netip, client, answer}

-- The arguments give a timeout of five seconds.
abbrev five_seconds : FlagLibrary
five_seconds = record {
  ManagerOptions = Unit;
  parse = λ flags args. ok (("netbox-request-timeout", duration (pos 5000000000)) ∷ [], tt);
  duration_text = λ z. "5s";
}

abbrev five_second_config : ManagerConfig Unit
five_second_config = record {
  metrics_addr = "0";
  webhook_cert_path = "";
  webhook_cert_name = "tls.crt";
  webhook_cert_key = "tls.key";
  enable_leader_election = false;
  probe_addr = ":8081";
  watch_namespace = "";
  watch_filter = "";
  enable_http2 = false;
  netbox_request_timeout = pos 5000000000;
  manager_options = tt;
}

abbrev settings : ConnectionConfig
settings = record {
  base_url = "https://netbox";
  token = "t";
  insecure_skip_verify = false;
  ca_bundle = "";
  request_timeout = pos 0;
}

abbrev http : HttpClient
http = record { insecure_skip_verify = false; root_cas = none; timeout = pos 5000000000 }

parsed_timeout_is_used_example :
    (is_positive (pos 5000000000) ≡ true) × (http.timeout ≡ pos 5000000000)
unfolding parse_flags lookup new_http_client config_from
parsed_timeout_is_used_example =
    parsed_timeout_is_used five_seconds [] five_second_config (λ pem. true) settings http refl refl

abbrev types : SchemeLibrary
types = record {
  Scheme = ℕ;
  new_scheme = 0;
  add_to_group_version = λ version s. s;
  add_known_types = λ version kinds s. s;
}

-- A manager that counts its calls, and stops when it is started.
abbrev counting : Manager ℕ
counting = record {
  client = kube;
  util = util;
  get_event_recorder = λ name. none;
  resource_not_paused_and_has_filter_label = λ filter event. true;
  index_field = λ object field index. answer (ok tt);
  complete = λ builder reconcile. answer (ok tt);
  add_healthz_check = λ name. answer (ok tt);
  add_readyz_check = λ name. answer (ok tt);
  start = answer (ok tt);
}

abbrev environment : Environment ℕ
environment = record {
  flag_library = five_seconds;
  scheme_library = types;
  add_others = [];
  new_manager = λ options. answer (ok counting);
  libraries = record { netip = netip; unmarshal = λ s. ok []; new_client = λ cfg. ok client };
}

-- a manager, three indexes, three controllers, two probes, and the start
main_exit_iff_example :
    ((main environment [] 0 ≡ (0, 10)) ↔ Ran environment [] 0 10)
    × (((main environment [] 0).0 ≡ 2) ↔ ((e : Error) × (parse_flags five_seconds [] ≡ err e)))
main_exit_iff_example = main_exit_iff environment [] 0 10

main_runs : main environment [] 0 ≡ (0, 10)
unfolding main parse_flags config_from lookup start_with new_scheme add_all add_to_scheme
    scheme_builder register_global_netbox_ip_pool register_netbox_ip_pool set_up_and_run
    setup_indexes setup_controllers setup_claim_reconciler netbox_provider_adapter adapter_setup
    setup_netbox_ip_pool_reconciler setup_global_netbox_ip_pool_reconciler add_probes
main_runs = refl
