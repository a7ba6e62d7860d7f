-- ===== src/Controller/Ledger/Implementation.antt =====
-- That the API client, on a server that keeps its promises, keeps those that the ledger stands on.
use cluster_api_ipam_provide.Base.{ℕ, String, Bool, ok, ◌≡◌}
use cluster_api_ipam_provide.Api.{Pool, IpAddressClaim}
use cluster_api_ipam_provide.Netbox.Config.{ConnectionConfig, HttpClient}
use cluster_api_ipam_provide.Netbox.Defaults.{ownership_tag, claim_uid_custom_field}
use cluster_api_ipam_provide.Netbox.Wire.{Network, Client}
use cluster_api_ipam_provide.Netbox.Client.{ApiClient}
use cluster_api_ipam_provide.Netbox.Client.Interface.{api_client, new_client}
use cluster_api_ipam_provide.Netbox.Client.Server.{Serves}
use cluster_api_ipam_provide.Controller.Handler.{Adapter}
use cluster_api_ipam_provide.Controller.Ledger.{Ledger}

module _ {W : Type 0} (append_certs : String → Bool) (network : HttpClient → Network W) (fuel : ℕ)
    (A : Adapter W) (claim : IpAddressClaim) (pool : Pool) (Holds : W → Ledger → Type 0) where
  abbrev client_over : HttpClient → ApiClient → Client W
  client_over http c = api_client append_certs network fuel (network http) c

  -- Every client of the adapter is the API client of a server that keeps its promises for the claim,
  -- and reading an object of the cluster leaves NetBox alone.
  pub record Server : Type 0 where
    pub api : (cfg : ConnectionConfig) → A.new_client cfg ≡ new_client append_certs network fuel cfg
    pub serves :
        (cfg : ConnectionConfig) (http : HttpClient) (c : ApiClient)
        → A.new_client cfg ≡ ok (client_over http c)
        → Serves Holds
            (network http)
            c
            (ownership_tag pool.spec)
            (claim_uid_custom_field pool.spec)
            claim.uid
    pub secret :
        (namespace name : String) (l : Ledger) (w : W)
        → Holds w l
        → Holds (A.kube.get_secret namespace name w).1 l
    pub object :
        (namespace name : String) (l : Ledger) (w : W)
        → Holds w l
        → Holds (A.kube.get_address namespace name w).1 l
