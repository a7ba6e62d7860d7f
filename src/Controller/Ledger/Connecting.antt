-- ===== src/Controller/Ledger/Connecting.antt =====
-- The client that the handler connects to, and what its operations may leave of NetBox's record of the claim.
use cluster_api_ipam_provide.Base.{
  none, some, Result, ok, err, ◌≡◌, ◌⊎◌, refl, After, Ensures, After-any, Ensures-bind,
}
use cluster_api_ipam_provide.Base.Errors.{Error}
use cluster_api_ipam_provide.Api.{Pool, IpAddressClaim, IpAddress}
use cluster_api_ipam_provide.Netbox.Config.{
  ConnectionConfig, load_connection_config, secret_namespace,
}
use cluster_api_ipam_provide.Netbox.Wire.{Client, AllocatedAddress}
use cluster_api_ipam_provide.Controller.Handler.{Adapter, connect}
use cluster_api_ipam_provide.Controller.Ledger.{Ledger, Keeps}

module _ {W : Type 0} (Holds : W → Ledger → Type 0) where
  -- EnsureAddress failed: the record is as it was, or one was made although there was none.
  abbrev pub Missed : Ledger → W → Type 0
  Missed l w = Holds w l ⊎ ((l ≡ none) × ((a : AllocatedAddress) × Holds w (some a)))

  -- EnsureAddress gave the record's address.
  pub record Given (l : Ledger) (result : IpAddress) (w : W) : Type 0 where
    pub a : AllocatedAddress
    pub was : (l ≡ none) ⊎ (l ≡ some a)
    pub holds : Holds w (some a)
    pub address : result.address ≡ a.address
    pub prefix : result.prefix ≡ some a.prefix

module _ {W : Type 0} (A : Adapter W) (claim : IpAddressClaim) (pool : Pool)
    (Holds : W → Ledger → Type 0) (K : Keeps A claim pool Holds) where
  -- A client that the adapter made, in a state where the record is `l`.
  abbrev pub Connected : Ledger → Client W → W → Type 0
  Connected l client w = ((cfg : ConnectionConfig) × (A.new_client cfg ≡ ok client)) × Holds w l

  made_client :
      (l : Ledger) (cfg : ConnectionConfig) (r : Result Error (Client W)) (w : W)
      → A.new_client cfg ≡ r
      → Holds w l
      → After (Connected l) (λ e v. Holds v l) r w
  made_client l cfg (ok client) w e h = ((cfg, e), h)
  made_client l cfg (err x) w e h = h

  pub connect-Connected :
      (l : Ledger)
      → Ensures (Connected l) (λ e v. Holds v l) (λ v. Holds v l) (connect A claim pool)
  unfolding connect load_connection_config
  connect-Connected l =
      Ensures-bind (λ cfg v. Holds v l) (Connected l) (λ e v. Holds v l)
        (load_connection_config A.kube.get_secret pool.namespace pool.spec.connection_secret_ref) _
        (λ w h.
          After-any (λ v. Holds v l) _ _
            (K.secret (secret_namespace pool.namespace pool.spec.connection_secret_ref)
              pool.spec.connection_secret_ref.name l w h))
        (λ cfg w h.
          made_client l (record cfg { request_timeout = A.request_timeout })
            (A.new_client (record cfg { request_timeout = A.request_timeout })) w refl h)
