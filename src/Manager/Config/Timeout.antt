-- ===== src/Manager/Config/Timeout.antt =====
-- What becomes of the timeout that the flags give.
use cluster_api_ipam_provide.Base.{
  zero, suc, String, Bool, true, List, ok, ◌≡◌, refl, ◌∙◌, inl, inr, Bool-cases, >>=ʳ_ok, map_err,
}
use cluster_api_ipam_provide.Base.Errors.{wrap}
use cluster_api_ipam_provide.Base.Int.{ℤ, pos, negsuc}
use cluster_api_ipam_provide.Netbox.Config.{
  ConnectionConfig, HttpClient, new_http_client, timeout_of,
}
use cluster_api_ipam_provide.Netbox.Config.Connection.{new_http_client-timeout}
use cluster_api_ipam_provide.Manager.Config.{
  FlagLibrary, ManagerConfig, flags, is_positive, config_from, with_positive_timeout, parse_flags,
}

module _ (F : FlagLibrary) where
  with_positive_timeout_ok :
      (c cfg : ManagerConfig F.ManagerOptions)
      → with_positive_timeout F c ≡ ok cfg
      → (c ≡ cfg) × (is_positive c.netbox_request_timeout ≡ true)
  with_positive_timeout_ok c cfg h = elim (Bool-cases (is_positive c.netbox_request_timeout)) [
    | inl good ↦ let k = rw good at h in (cc, good)
    | inr bad ↦ let k = rw bad at h in absurd (cc)
  ]

  parse_flags-positive :
      (args : List String) (cfg : ManagerConfig F.ManagerOptions)
      → parse_flags F args ≡ ok cfg
      → is_positive cfg.netbox_request_timeout ≡ true
  unfolding parse_flags
  parse_flags-positive args cfg h =
      let (parsed, e, h1) = >>=ʳ_ok (map_err (wrap "parse flags") (F.parse flags args)) _ cfg h in
      let (same, positive) = with_positive_timeout_ok (config_from parsed.0 parsed.1) cfg h1 in
      rw same at positive

  timeout_kept : (z : ℤ) → is_positive z ≡ true → timeout_of z ≡ z
  timeout_kept (pos zero) h = absurd (cc)
  timeout_kept (pos (suc n)) h = refl
  timeout_kept (negsuc n) h = absurd (cc)

  -- When the flags are accepted, their timeout is positive, and every HTTP client that is made with it,
  -- whatever else the settings are, has exactly that timeout, never the default in its place.
  pub parsed_timeout_is_used :
      (args : List String) (cfg : ManagerConfig F.ManagerOptions) (append_certs : String → Bool)
      (settings : ConnectionConfig) (http : HttpClient)
      → parse_flags F args ≡ ok cfg
      → new_http_client append_certs
          (record settings { request_timeout = cfg.netbox_request_timeout })
        ≡ ok http
      → (is_positive cfg.netbox_request_timeout ≡ true)
        × (http.timeout ≡ cfg.netbox_request_timeout)
  parsed_timeout_is_used args cfg append_certs settings http h made =
      let positive = parse_flags-positive args cfg h in
      (
        positive,
        new_http_client-timeout append_certs
              (record settings { request_timeout = cfg.netbox_request_timeout }) http made
            ∙ timeout_kept cfg.netbox_request_timeout positive,
      )
