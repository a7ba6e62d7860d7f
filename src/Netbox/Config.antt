-- ===== src/Netbox/Config.antt =====
-- internal/netbox/config.go: the connection settings that a pool's Secret holds.
pub mod Connection
use cluster_api_ipam_provide.Base.{
  ℕ, String, Bool, true, false, ◌||◌, List, [], ◌∷◌, Option, none, some, Result, ok, err,
  ◌>>=ʳ◌ as ◌>>=◌, ◌<>◌, ◌=ˢ◌, if◌then◌else◌, Effect, wrapping, map_err,
}
use cluster_api_ipam_provide.Base.Text.{is_empty}
use cluster_api_ipam_provide.Base.Dict.{Dict, lookup}
use cluster_api_ipam_provide.Base.Errors.{Error, wrap, message, external}
use cluster_api_ipam_provide.Base.Int.{ℤ, pos, negsuc}
use cluster_api_ipam_provide.Api.{NamespacedSecretReference}

abbrev pub secret_key_url : String
secret_key_url = "url"

abbrev pub secret_key_token : String
secret_key_token = "token"

abbrev pub secret_key_insecure_skip_verify : String
secret_key_insecure_skip_verify = "insecureSkipVerify"

abbrev pub secret_key_ca_bundle : String
secret_key_ca_bundle = "caBundle"

-- 30 seconds, in nanoseconds as a `time.Duration` is
abbrev pub default_request_timeout : ℤ
default_request_timeout = pos 30000000000

pub record ConnectionConfig : Type 0 where
  pub base_url : String
  pub token : String
  pub insecure_skip_verify : Bool
  pub ca_bundle : String
  pub request_timeout : ℤ

abbrev pub text_or_empty : Option String → String
text_or_empty none = ""
text_or_empty (some v) = v

-- `secret.Data[key]`: a missing key reads as empty bytes
abbrev pub data_of : String → Dict String → String
data_of key secret = text_or_empty (lookup key secret)

abbrev one_of : List String → String → Bool
one_of [] s = false
one_of (t ∷ ts) s = s =ˢ t || one_of ts s

-- `strconv.ParseBool`
unfoldable pub parse_bool : String → Option Bool
parse_bool s =
    if one_of ("1" ∷ "t" ∷ "T" ∷ "TRUE" ∷ "true" ∷ "True" ∷ []) s
    then some true
    else if one_of ("0" ∷ "f" ∷ "F" ∷ "FALSE" ∷ "false" ∷ "False" ∷ []) s
    then some false
    else none

abbrev pub insecure_setting : Dict String → Result Error Bool
insecure_setting secret =
    let raw = data_of secret_key_insecure_skip_verify secret in
    if is_empty raw then ok false else elim (parse_bool raw) [
      | some value ↦ ok value
      | none ↦ err (wrap ("parse " <> secret_key_insecure_skip_verify) (external "invalid syntax"))
    ]

abbrev pub required : String → String → String → Result Error String
required place key value =
    if is_empty value
    then err (message ("connection secret " <> place <> " is missing " <> key))
    else ok value

-- `LoadConnectionConfig` from the Secret's data on
unfoldable pub connection_config : String → Dict String → Result Error ConnectionConfig
unfolding parse_bool
connection_config place secret = do
  base_url ← required place secret_key_url (data_of secret_key_url secret)
  token ← required place secret_key_token (data_of secret_key_token secret)
  insecure_skip_verify ← insecure_setting secret
  ok (record {
    base_url = base_url;
    token = token;
    insecure_skip_verify = insecure_skip_verify;
    ca_bundle = data_of secret_key_ca_bundle secret;
    request_timeout = pos 0;
  })

-- The namespace that the Secret is read from.
unfoldable pub secret_namespace : String → NamespacedSecretReference → String
secret_namespace namespace ref = if is_empty ref.namespace then namespace else ref.namespace

-- `get_secret namespace name` is the API client's `Get` of a Secret.
module _ {W : Type 0} (get_secret : String → String → Effect W Error (Dict String)) where
  unfoldable pub load_connection_config :
      String → NamespacedSecretReference → Effect W Error ConnectionConfig
  unfolding secret_namespace
  load_connection_config namespace ref w =
      let from = secret_namespace namespace ref in
      let (found, w') = wrapping (wrap "get connection secret") (get_secret from ref.name) w in
      (found >>= connection_config (from <> "/" <> ref.name), w')

pub record HttpClient : Type 0 where
  pub insecure_skip_verify : Bool
  pub root_cas : Option String
  pub timeout : ℤ

abbrev pub timeout_of : ℤ → ℤ
timeout_of (pos ℕ.zero) = default_request_timeout
timeout_of (pos (ℕ.suc n)) = pos (ℕ.suc n)
timeout_of (negsuc n) = default_request_timeout

-- `NewHTTPClient`; whether the bundle holds a certificate is the answer of `AppendCertsFromPEM`
unfoldable pub new_http_client : (String → Bool) → ConnectionConfig → Result Error HttpClient
new_http_client append_certs cfg = do
  root_cas ←
      if is_empty cfg.ca_bundle
      then ok none
      else if append_certs cfg.ca_bundle
      then ok (some cfg.ca_bundle)
      else err (message "parse CA bundle")
  ok (record {
    insecure_skip_verify = cfg.insecure_skip_verify;
    root_cas = root_cas;
    timeout = timeout_of cfg.request_timeout;
  })

-- `url.URL` as far as the program reads it
pub record Url : Type 0 where
  pub scheme : String
  pub host : String
  pub path : String
  pub query : List (String × String)

-- `SplitBaseURL`; `parse` is `url.Parse`
unfoldable pub split_base_url :
    (String → Result Error Url) → String → Result Error (String × String)
split_base_url parse raw_url = do
  parsed ← map_err (wrap "parse url") (parse raw_url)
  if is_empty parsed.scheme || is_empty parsed.host
      then err (message ("url " <> raw_url <> " must include scheme and host"))
      else ok (parsed.scheme, parsed.host)
