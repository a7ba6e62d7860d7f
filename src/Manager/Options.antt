-- ===== src/Manager/Options.antt =====
-- `makeTLSOptions`, `newWebhookServerOptions` and `newManagerOptions` of cmd/main.go.
use cluster_api_ipam_provide.Base.{
  String, Bool, List, [], ◌∷◌, ◌++◌, Result, if◌then◌else◌, map_err,
}
use cluster_api_ipam_provide.Base.Text.{is_empty}
use cluster_api_ipam_provide.Base.Errors.{Error, wrap}
use cluster_api_ipam_provide.Api.Scheme.{SchemeLibrary, add_all, add_to_scheme}
use cluster_api_ipam_provide.Manager.Config.{ManagerConfig}

-- `tls.Config` as far as the program sets it.
pub record TlsConfig : Type 0 where
  pub next_protos : List String

unfoldable pub make_tls_options : Bool → List (TlsConfig → TlsConfig)
make_tls_options enable_http2 =
    if enable_http2
    then []
    else (λ (c : TlsConfig). record c { next_protos = "http/1.1" ∷ [] }) ∷ []

-- `webhook.Options`; a field that is not set is "".
pub record WebhookOptions : Type 0 where
  pub tls_opts : List (TlsConfig → TlsConfig)
  pub cert_dir : String
  pub cert_name : String
  pub key_name : String

module _ {Options : Type 0} (cfg : ManagerConfig Options) where
  unfoldable pub new_webhook_server_options : List (TlsConfig → TlsConfig) → WebhookOptions
  new_webhook_server_options tls_opts =
      if is_empty cfg.webhook_cert_path
      then record { tls_opts = tls_opts; cert_dir = ""; cert_name = ""; key_name = "" }
      else record {
        tls_opts = tls_opts;
        cert_dir = cfg.webhook_cert_path;
        cert_name = cfg.webhook_cert_name;
        key_name = cfg.webhook_cert_key;
      }

-- `ctrl.Options`, with the server that `webhook.NewServer` makes of its options; no default namespaces
-- stand for all namespaces.
pub record ManagerOptions (Scheme : Type 0) : Type 0 where
  pub scheme : Scheme
  pub metrics_bind_address : String
  pub webhook_server : WebhookOptions
  pub health_probe_bind_address : String
  pub leader_election : Bool
  pub leader_election_id : String
  pub default_namespaces : List String

module _ {Options Scheme : Type 0} (cfg : ManagerConfig Options) where
  unfoldable pub new_manager_options : Scheme → WebhookOptions → ManagerOptions Scheme
  new_manager_options scheme webhook_server_options = record {
    scheme = scheme;
    metrics_bind_address = cfg.metrics_addr;
    webhook_server = webhook_server_options;
    health_probe_bind_address = cfg.probe_addr;
    leader_election = cfg.enable_leader_election;
    leader_election_id = "cluster-api-ipam-provider-netbox.ipam.cluster.x-k8s.io";
    default_namespaces = if is_empty cfg.watch_namespace then [] else cfg.watch_namespace ∷ [];
  }

module _ (L : SchemeLibrary) where
  -- `newScheme`; the other three are `AddToScheme` of client-go and of Cluster API
  unfoldable pub new_scheme : List (L.Scheme → Result Error L.Scheme) → Result Error L.Scheme
  new_scheme others =
      map_err (wrap "add types to scheme")
        (add_all L (others ++ (add_to_scheme L ∷ [])) L.new_scheme)
