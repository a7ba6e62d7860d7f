-- ===== src/Netbox/Client/Interface.antt =====
-- `NewClient`, and `APIClient` as a `Client`.
use cluster_api_ipam_provide.Base.{ℕ, String, Bool, Result, ok, ◌>>=ʳ◌ as ◌>>=◌, ◌==◌}
use cluster_api_ipam_provide.Base.Text.{trim_right}
use cluster_api_ipam_provide.Base.Errors.{Error}
use cluster_api_ipam_provide.Netbox.Config.{
  ConnectionConfig, HttpClient, new_http_client, split_base_url,
}
use cluster_api_ipam_provide.Netbox.Wire.{Network, Client}
use cluster_api_ipam_provide.Netbox.Client.{ApiClient}
use cluster_api_ipam_provide.Netbox.Client.Prefixes
use cluster_api_ipam_provide.Netbox.Client.Addresses

-- `append_certs` is `AppendCertsFromPEM`, and `network` what an `http.Client` of those settings
-- reaches. Lists of up to `fuel` pages are read.
module _ {W : Type 0} (append_certs : String → Bool) (network : HttpClient → Network W)
    (fuel : ℕ) where
  unfoldable pub api_client : Network W → ApiClient → Client W
  api_client N c = record {
    resolve_prefix_ids = Prefixes.resolve_prefix_ids N c fuel;
    get_prefix_details = Prefixes.get_prefix_details N c fuel;
    ensure_ip_address_custom_field = Prefixes.ensure_ip_address_custom_field N c fuel;
    allocate_ip_address = Addresses.allocate_ip_address N c fuel;
    find_ip_address_by_claim_uid = Addresses.find_ip_address_by_claim_uid N c fuel;
    find_ip_address_by_address = Addresses.find_ip_address_by_address N c fuel;
    delete_ip_address = Addresses.delete_ip_address N c fuel;
  }

  unfoldable pub new_client : ConnectionConfig → Result Error (Client W)
  new_client cfg = do
    http ← new_http_client append_certs cfg
    split ← split_base_url (network http).parse_url cfg.base_url
    ok (
        api_client (network http)
          (record { base_url = trim_right (λ c. c == b'/') cfg.base_url; token = cfg.token }))
