-- ===== src/Netbox/Config/Connection.antt =====
-- What the connection settings that are accepted are like.
use cluster_api_ipam_provide.Base.{
  ℕ, ◌<◌, String, Bool, true, false, none, some, Result, ok, err, ◌≡◌, ◌⊎◌, inl, inr, refl, ap, sym,
  ◌∙◌, arith, Bool-cases, Option-cases, >>=ʳ_ok, map_err_ok, if◌then◌else◌, Effect, ◌<>◌, map_err,
}
use cluster_api_ipam_provide.Base.Text.{is_empty}
use cluster_api_ipam_provide.Base.Dict.{Dict, lookup}
use cluster_api_ipam_provide.Base.Errors.{Error, wrap, message}
use cluster_api_ipam_provide.Base.Int.{ℤ, pos, negsuc}
use cluster_api_ipam_provide.Api.{NamespacedSecretReference}
use cluster_api_ipam_provide.Netbox.Config.{
  ConnectionConfig, text_or_empty, data_of, required, insecure_setting, connection_config,
  load_connection_config, secret_namespace, parse_bool, secret_key_url, secret_key_token,
  secret_key_insecure_skip_verify, secret_key_ca_bundle, HttpClient, new_http_client, timeout_of,
}

-- Settings that a Secret gives: its address and its token, neither of them empty; certificates are
-- checked unless the Secret says in so many words that they are not to be.
pub record Given (secret : Dict String) (cfg : ConnectionConfig) : Type 0 where
  pub url : lookup "url" secret ≡ some cfg.base_url
  pub url_nonempty : is_empty cfg.base_url ≡ false
  pub token : lookup "token" secret ≡ some cfg.token
  pub token_nonempty : is_empty cfg.token ≡ false
  pub checked :
      (cfg.insecure_skip_verify ≡ false)
      ⊎ ((value : String) × (lookup "insecureSkipVerify" secret ≡ some value)
          × (parse_bool value ≡ some true))
  pub ca_bundle :
      ((lookup "caBundle" secret ≡ none) × (cfg.ca_bundle ≡ ""))
      ⊎ (lookup "caBundle" secret ≡ some cfg.ca_bundle)

-- What is read for a key: its value, or "" where there is none.
data_of-cases :
    (key : String) (secret : Dict String)
    → ((lookup key secret ≡ none) × (data_of key secret ≡ ""))
      ⊎ (lookup key secret ≡ some (data_of key secret))
data_of-cases key secret = elim (Option-cases (lookup key secret)) [
  | inl absent ↦ inl (absent, ap text_or_empty absent)
  | inr (value, found) ↦ inr (found ∙ ap some (sym (ap text_or_empty found)))
]

data_of_full :
    (key : String) (secret : Dict String)
    → is_empty (data_of key secret) ≡ false
    → lookup key secret ≡ some (data_of key secret)
data_of_full key secret full = elim (data_of-cases key secret) [
  | inl (absent, e) ↦ absurd (cc (full, ap is_empty e))
  | inr found ↦ found
]

required_ok :
    (place key value r : String)
    → required place key value ≡ ok r
    → (value ≡ r) × (is_empty value ≡ false)
required_ok place key value r h = elim (Bool-cases (is_empty value)) [
  | inl empty ↦ let h' = rw empty at h in absurd (cc)
  | inr full ↦ let h' = rw full at h in (cc, full)
]

insecure_setting_ok :
    (secret : Dict String) (b : Bool)
    → insecure_setting secret ≡ ok b
    → (b ≡ false)
      ⊎ ((value : String) × (lookup "insecureSkipVerify" secret ≡ some value)
          × (parse_bool value ≡ some true))
insecure_setting_ok secret false h = inl refl
insecure_setting_ok secret true h =
    let raw = data_of secret_key_insecure_skip_verify secret in
    let full : is_empty raw ≡ false = ground arith in
    inr (raw, data_of_full secret_key_insecure_skip_verify secret full, ground arith)

connection_config-Given :
    (place : String) (secret : Dict String) (cfg : ConnectionConfig)
    → connection_config place secret ≡ ok cfg
    → Given secret cfg
unfolding connection_config
connection_config-Given place secret cfg h =
    let (url, eu, h1) =
      >>=ʳ_ok (required place secret_key_url (data_of secret_key_url secret)) _ cfg h in
    let (token, et, h2) =
      >>=ʳ_ok (required place secret_key_token (data_of secret_key_token secret)) _ cfg h1 in
    let (skip, es, h3) = >>=ʳ_ok (insecure_setting secret) _ cfg h2 in
    let (u, un) = required_ok place secret_key_url (data_of secret_key_url secret) url eu in
    let (t, tn) = required_ok place secret_key_token (data_of secret_key_token secret) token et in
    let same = cfg_is _ cfg h3 in
    rw (sym same) (record {
      url = data_of_full secret_key_url secret un ∙ ap some u;
      url_nonempty = ap is_empty (sym u) ∙ un;
      token = data_of_full secret_key_token secret tn ∙ ap some t;
      token_nonempty = ap is_empty (sym t) ∙ tn;
      checked = insecure_setting_ok secret skip es;
      ca_bundle = data_of-cases secret_key_ca_bundle secret;
    })
  where
    cfg_is :
        (a b : ConnectionConfig) → ◌≡◌ {A = Result Error ConnectionConfig} (ok a) (ok b) → a ≡ b
    cfg_is a b h = cc

-- The namespace of the reference, or if it names none the pool's own.
abbrev pub IsPlace : String → NamespacedSecretReference → String → Type 0
IsPlace namespace ref place =
    ((is_empty ref.namespace ≡ true) × (place ≡ namespace))
    ⊎ ((is_empty ref.namespace ≡ false) × (place ≡ ref.namespace))

secret_namespace-IsPlace :
    (namespace : String) (ref : NamespacedSecretReference)
    → IsPlace namespace ref (secret_namespace namespace ref)
unfolding secret_namespace
secret_namespace-IsPlace namespace ref = elim (Bool-cases (is_empty ref.namespace)) [
  | inl empty ↦ rw empty (inl (refl, refl))
  | inr full ↦ rw full (inr (refl, refl))
]

module _ {W : Type 0} (get_secret : String → String → Effect W Error (Dict String)) where
  -- Settings that load come from the Secret of the pool's reference, in the namespace that the
  -- reference names or else in the pool's own: their address and token are the Secret's and not empty,
  -- their bundle of certificates is the Secret's, if it has one, and they leave certificates unchecked
  -- only if the Secret asks for it.
  pub load_connection_config-Given :
      (namespace : String) (ref : NamespacedSecretReference) (cfg : ConnectionConfig) (w w' : W)
      → load_connection_config get_secret namespace ref w ≡ (ok cfg, w')
      → (place : String) × (secret : Dict String) × IsPlace namespace ref place
        × (get_secret place ref.name w ≡ (ok secret, w'))
        × Given secret cfg
  unfolding load_connection_config
  load_connection_config-Given namespace ref cfg w w' h =
      let from = secret_namespace namespace ref in
      let (found, w1) = get_secret from ref.name w in
      let (secret, e, h1) =
        >>=ʳ_ok (map_err (wrap "get connection secret") found)
          (connection_config (from <> "/" <> ref.name)) cfg (ap (λ q. q.0) h) in
      let read = map_err_ok (wrap "get connection secret") found secret e in
      (
        from,
        secret,
        secret_namespace-IsPlace namespace ref,
        pair read (ap (λ q. q.1) h),
        connection_config-Given (from <> "/" <> ref.name) secret cfg h1,
      )
    where
      pair :
          {r s : Result Error (Dict String)} {u v : W}
          → r ≡ s
          → u ≡ v
          → ◌≡◌ {A = Result Error (Dict String) × W} (r, u) (s, v)
      pair e f = cc

timeout_of-positive : (z : ℤ) → (n : ℕ) × (0 < n) × (timeout_of z ≡ pos n)
timeout_of-positive (pos ℕ.zero) = (30000000000, omega arith, refl)
timeout_of-positive (pos (ℕ.suc n)) = (ℕ.suc n, omega arith, refl)
timeout_of-positive (negsuc n) = (30000000000, omega arith, refl)

-- Every HTTP client that is made for a pool gives up after a time that is not zero, whatever timeout
-- the settings ask for. It leaves certificates unchecked exactly if the settings say so, and its root
-- certificates are those of the settings' bundle, in which there is one, or with no bundle the default
-- ones.
pub new_http_client_limited :
    (append_certs : String → Bool) (cfg : ConnectionConfig) (http : HttpClient)
    → new_http_client append_certs cfg ≡ ok http
    → ((n : ℕ) × (0 < n) × (http.timeout ≡ pos n))
      × (http.insecure_skip_verify ≡ cfg.insecure_skip_verify)
      × (((is_empty cfg.ca_bundle ≡ true) × (http.root_cas ≡ none))
          ⊎ ((append_certs cfg.ca_bundle ≡ true) × (http.root_cas ≡ some cfg.ca_bundle)))
unfolding new_http_client
new_http_client_limited append_certs cfg http h =
    let (cas, e, h1) =
      >>=ʳ_ok
        (if is_empty cfg.ca_bundle
          then ok none
          else if append_certs cfg.ca_bundle
          then ok (some cfg.ca_bundle)
          else err (message "parse CA bundle"))
        _ http h in
    rw (sym (http_is _ http h1)) (
      timeout_of-positive cfg.request_timeout,
      refl,
      elim (Bool-cases (is_empty cfg.ca_bundle)) [
        | inl empty ↦ let e' = rw empty at e in inl (empty, cc)
        | inr full ↦ elim (Bool-cases (append_certs cfg.ca_bundle)) [
          | inl good ↦ let e' = rw good at (rw full at e) in inr (good, cc)
          | inr bad ↦ let e' = rw bad at (rw full at e) in absurd (cc)
        ]
      ],
    )
  where
    http_is : (a b : HttpClient) → ◌≡◌ {A = Result Error HttpClient} (ok a) (ok b) → a ≡ b
    http_is a b h = cc

-- The timeout of a client is that of its settings, or else the default.
pub new_http_client-timeout :
    (append_certs : String → Bool) (cfg : ConnectionConfig) (http : HttpClient)
    → new_http_client append_certs cfg ≡ ok http
    → http.timeout ≡ timeout_of cfg.request_timeout
unfolding new_http_client
new_http_client-timeout append_certs cfg http h =
    let (cas, e, h1) =
      >>=ʳ_ok
        (if is_empty cfg.ca_bundle
          then ok none
          else if append_certs cfg.ca_bundle
          then ok (some cfg.ca_bundle)
          else err (message "parse CA bundle"))
        _ http h in
    ap (λ (c : HttpClient). c.timeout) (sym (http_is _ http h1))
  where
    http_is : (a b : HttpClient) → ◌≡◌ {A = Result Error HttpClient} (ok a) (ok b) → a ≡ b
    http_is a b k = cc
