-- ===== src/Manager/Config.antt =====
-- `managerConfig` and `parseFlagsWithGoFlagSet` of cmd/main.go.
pub mod Timeout
use cluster_api_ipam_provide.Base.{
  ℕ, zero, suc, String, Bool, true, false, List, [], ◌∷◌, Option, none, some, Result, ok, err,
  ◌>>=ʳ◌ as ◌>>=◌, ◌<>◌, if◌then◌else◌, map_err,
}
use cluster_api_ipam_provide.Base.Dict.{Dict, lookup}
use cluster_api_ipam_provide.Base.Errors.{Error, wrap, message}
use cluster_api_ipam_provide.Base.Int.{ℤ, pos, negsuc}
use cluster_api_ipam_provide.Netbox.Config.{default_request_timeout}

-- `StringVar`, `BoolVar` and `DurationVar`: a flag's default, or the value that it is given
pub data FlagValue : Type 0 where
  text : String → FlagValue
  switch : Bool → FlagValue
  duration : ℤ → FlagValue

pub record Flag : Type 0 where
  pub name : String
  pub default : FlagValue

-- pflag, and Cluster API's flags for the manager.
pub record FlagLibrary : Type 1 where
  pub ManagerOptions : Type 0
  -- `Parse` of a set with `AddManagerOptions`, the Go flag set and these flags: the values that the
  -- arguments give, and the manager's options
  pub parse : List Flag → List String → Result Error (Dict FlagValue × ManagerOptions)
  -- `time.Duration.String`
  pub duration_text : ℤ → String

pub record ManagerConfig (Options : Type 0) : Type 0 where
  pub metrics_addr : String
  pub webhook_cert_path : String
  pub webhook_cert_name : String
  pub webhook_cert_key : String
  pub enable_leader_election : Bool
  pub probe_addr : String
  pub watch_namespace : String
  pub watch_filter : String
  pub enable_http2 : Bool
  pub netbox_request_timeout : ℤ
  pub manager_options : Options

abbrev pub default_metrics_addr : String
default_metrics_addr = "0"

abbrev pub default_probe_addr : String
default_probe_addr = ":8081"

unfoldable pub flags : List Flag
flags =
    record { name = "metrics-bind-address"; default = text default_metrics_addr }
    ∷ record { name = "health-probe-bind-address"; default = text default_probe_addr }
    ∷ record { name = "leader-elect"; default = switch false }
    ∷ record { name = "namespace"; default = text "" }
    ∷ record { name = "watch-filter"; default = text "" }
    ∷ record { name = "webhook-cert-path"; default = text "" }
    ∷ record { name = "webhook-cert-name"; default = text "tls.crt" }
    ∷ record { name = "webhook-cert-key"; default = text "tls.key" }
    ∷ record { name = "enable-http2"; default = switch false }
    ∷ record { name = "netbox-request-timeout"; default = duration default_request_timeout }
    ∷ []

-- A variable after `Parse`: the value that its flag is given, or else its default.
abbrev pub text_of : Option FlagValue → String → String
text_of (some (text s)) default = s
text_of (some (switch b)) default = default
text_of (some (duration z)) default = default
text_of none default = default

abbrev pub switch_of : Option FlagValue → Bool → Bool
switch_of (some (text s)) default = default
switch_of (some (switch b)) default = b
switch_of (some (duration z)) default = default
switch_of none default = default

abbrev pub duration_of : Option FlagValue → ℤ → ℤ
duration_of (some (text s)) default = default
duration_of (some (switch b)) default = default
duration_of (some (duration z)) default = z
duration_of none default = default

abbrev pub is_positive : ℤ → Bool
is_positive (pos zero) = false
is_positive (pos (suc n)) = true
is_positive (negsuc n) = false

unfoldable pub config_from : {Options : Type 0} → Dict FlagValue → Options → ManagerConfig Options
config_from given options = record {
  metrics_addr = text_of (lookup "metrics-bind-address" given) default_metrics_addr;
  webhook_cert_path = text_of (lookup "webhook-cert-path" given) "";
  webhook_cert_name = text_of (lookup "webhook-cert-name" given) "tls.crt";
  webhook_cert_key = text_of (lookup "webhook-cert-key" given) "tls.key";
  enable_leader_election = switch_of (lookup "leader-elect" given) false;
  probe_addr = text_of (lookup "health-probe-bind-address" given) default_probe_addr;
  watch_namespace = text_of (lookup "namespace" given) "";
  watch_filter = text_of (lookup "watch-filter" given) "";
  enable_http2 = switch_of (lookup "enable-http2" given) false;
  netbox_request_timeout =
      duration_of (lookup "netbox-request-timeout" given) default_request_timeout;
  manager_options = options;
}

module _ (F : FlagLibrary) where
  abbrev pub with_positive_timeout :
      ManagerConfig F.ManagerOptions → Result Error (ManagerConfig F.ManagerOptions)
  with_positive_timeout cfg =
      if is_positive cfg.netbox_request_timeout
      then ok cfg
      else err (
          message (
            "netbox-request-timeout must be positive, got "
            <> F.duration_text cfg.netbox_request_timeout))

  -- `parseFlags`
  unfoldable pub parse_flags : List String → Result Error (ManagerConfig F.ManagerOptions)
  parse_flags args = do
    parsed ← map_err (wrap "parse flags") (F.parse flags args)
    with_positive_timeout (config_from parsed.0 parsed.1)
