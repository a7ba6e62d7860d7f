-- ===== src/Controller/Ledger/Ensuring.antt =====
-- What EnsureAddress does to NetBox's record of the claim, whether it succeeds or fails.
use cluster_api_ipam_provide.Base.{
  true, none, some, ok, ◌≡◌, inl, wrapping, Ensures, After-weaken, Ensures-wrapping, Ensures-bind,
}
use cluster_api_ipam_provide.Base.Text.{is_empty}
use cluster_api_ipam_provide.Api.{Pool, IpAddressClaim, IpAddress}
use cluster_api_ipam_provide.Netbox.Config.{ConnectionConfig}
use cluster_api_ipam_provide.Netbox.Wire.{Client}
use cluster_api_ipam_provide.Controller.Handler.{
  Adapter, plain, sanitized, connect, find_own, reuse_or_allocate, obtain_address, ensure_address,
}
use cluster_api_ipam_provide.Controller.Ledger.{Ledger, Keeps}
use cluster_api_ipam_provide.Controller.Ledger.Connecting.{
  Connected, Missed, Given, connect-Connected,
}
use cluster_api_ipam_provide.Controller.Ledger.Allocating.{reuse-Given, allocate_new-Given}

module _ {W : Type 0} (A : Adapter W) (claim : IpAddressClaim) (pool : Pool)
    (Holds : W → Ledger → Type 0) (K : Keeps A claim pool Holds) where
  module _ (cfg : ConnectionConfig) (client : Client W) (made : A.new_client cfg ≡ ok client) where
    reuse_or_allocate-Given :
        (address : IpAddress) (l : Ledger)
        → Ensures
            (Given Holds l)
            (λ f. Missed Holds l)
            (λ v. Holds v l)
            (reuse_or_allocate A claim pool client address l)
    reuse_or_allocate-Given address none =
        allocate_new-Given A claim pool Holds K cfg client made address
    reuse_or_allocate-Given address (some a) =
        reuse-Given A claim pool Holds K cfg client made address a

  pub obtain_address-Given :
      (address : IpAddress) (l : Ledger)
      → Ensures
          (Given Holds l)
          (λ f. Missed Holds l)
          (λ v. Holds v l)
          (obtain_address A claim pool address)
  unfolding obtain_address
  obtain_address-Given address l =
      Ensures-bind (Connected A claim pool Holds K l) (Given Holds l) (λ f. Missed Holds l)
        (wrapping plain (connect A claim pool)) _
        (Ensures-wrapping (Connected A claim pool Holds K l) (λ f. Missed Holds l) plain
          (connect A claim pool)
          (λ w h.
            After-weaken (Connected A claim pool Holds K l) (Connected A claim pool Holds K l)
              (λ e v. Holds v l) (λ e. Missed Holds l) _ _ (λ c q. q) (λ e q. inl q)
              (connect-Connected A claim pool Holds K l w h)))
        (λ client w c.
          Ensures-bind (λ o v. (o ≡ l) × Holds v l) (Given Holds l) (λ f. Missed Holds l)
            (wrapping plain (find_own A claim pool client))
            (reuse_or_allocate A claim pool client address)
            (Ensures-wrapping (λ o v. (o ≡ l) × Holds v l) (λ f. Missed Holds l) plain
              (find_own A claim pool client)
              (λ v h.
                After-weaken (λ o u. (o ≡ l) × Holds u l) (λ o u. (o ≡ l) × Holds u l)
                  (λ e u. Holds u l) (λ e. Missed Holds l) _ _ (λ o q. q) (λ e q. inl q)
                  (K.by_uid c.0.0 client l v c.0.1 h)))
            (λ o v q. rw q.0 (reuse_or_allocate-Given c.0.0 client c.0.1 address l v q.1)) w c.1)

  -- After EnsureAddress, of an address that was not set.
  pub ensure_address-Given :
      (address : IpAddress) (l : Ledger)
      → is_empty address.address ≡ true
      → Ensures
          (Given Holds l)
          (λ f. Missed Holds l)
          (λ v. Holds v l)
          (ensure_address A claim pool address)
  unfolding ensure_address
  ensure_address-Given address l e = rw e (
      Ensures-wrapping (Given Holds l) (λ f. Missed Holds l) sanitized
        (obtain_address A claim pool address) (obtain_address-Given address l))
