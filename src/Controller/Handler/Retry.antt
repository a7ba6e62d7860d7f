-- ===== src/Controller/Handler/Retry.antt =====
-- A retried `EnsureAddress`: what was allocated for a claim, and not yet written to the cluster, is found
-- again.
use cluster_api_ipam_provide.Base.{
  String, true, List, Option, none, some, Result, ok, ◌≡◌, refl, sym, ◌∙◌,
}
use cluster_api_ipam_provide.Base.Text.{is_empty}
use cluster_api_ipam_provide.Base.Int.{ℤ}
use cluster_api_ipam_provide.Api.{Pool, IpAddressClaim, IpAddress, NetBoxPrefixReference}
use cluster_api_ipam_provide.Netbox.Config.{ConnectionConfig, secret_namespace}
use cluster_api_ipam_provide.Netbox.Metadata.{EffectiveMetadata}
use cluster_api_ipam_provide.Netbox.Wire.{Client, AllocationRequest, AllocatedAddress}
use cluster_api_ipam_provide.Controller.Handler.{
  Adapter, Failure, find_own, gateway_details, ensure_address, allocation_request,
}
use cluster_api_ipam_provide.Controller.Handler.Ensure.{Search, Source, ensure_address_source}
use cluster_api_ipam_provide.Controller.Handler.Reading.{connect-made, gateway_details_kept}

module _ {W : Type 0} (A : Adapter W) (claim : IpAddressClaim) (pool : Pool) where
  -- What NetBox promises for a claim. `Holds w a`: in the state `w` NetBox's record of the claim is `a`.
  pub record Remembers (Holds : W → AllocatedAddress → Type 0) : Type 0 where
    -- The record stays what it is while the cluster and NetBox are only read.
    pub secret :
        (namespace name : String) (w : W) (a : AllocatedAddress)
        → Holds w a
        → Holds (A.kube.get_secret namespace name w).1 a
    pub resolving :
        (cfg : ConnectionConfig) (client : Client W) (refs : List NetBoxPrefixReference) (w : W)
        (a : AllocatedAddress)
        → A.new_client cfg ≡ ok client
        → Holds w a
        → Holds (client.resolve_prefix_ids refs w).1 a
    pub details :
        (cfg : ConnectionConfig) (client : Client W) (ids : List ℤ) (w : W) (a : AllocatedAddress)
        → A.new_client cfg ≡ ok client
        → Holds w a
        → Holds (client.get_prefix_details ids w).1 a
    -- A search that is answered finds the record, and what it finds is the record.
    pub finds :
        (cfg : ConnectionConfig) (client : Client W) (w w' : W) (a : AllocatedAddress)
        (o : Option AllocatedAddress)
        → A.new_client cfg ≡ ok client
        → Holds w a
        → find_own A claim pool client w ≡ (ok o, w')
        → o ≡ some a
    pub found :
        (cfg : ConnectionConfig) (client : Client W) (w w' : W) (a : AllocatedAddress)
        → A.new_client cfg ≡ ok client
        → find_own A claim pool client w ≡ (ok (some a), w')
        → Holds w' a
    -- An allocation for the claim makes the record.
    pub allocates :
        (cfg : ConnectionConfig) (client : Client W) (metadata : EffectiveMetadata) (id : ℤ)
        (w w' : W) (a : AllocatedAddress)
        → A.new_client cfg ≡ ok client
        → client.allocate_ip_address id (allocation_request A claim pool metadata) w ≡ (ok a, w')
        → Holds w' a

  -- A search through the prefixes that gets an address ends with its allocation.
  Search-last :
      (client : Client W) (request : AllocationRequest) {r : Result Failure (ℤ × AllocatedAddress)}
      (id : ℤ) (a : AllocatedAddress) {w' w : W} {ids : List ℤ}
      → r ≡ ok (id, a)
      → Search A claim pool client request r w' w ids
      → (v : W) × (client.allocate_ip_address id request v ≡ (ok a, w'))
  Search-last client request id a e (Search.none_left v er ew) = absurd (cc)
  Search-last client request id a e (Search.taken v i is b ea er) = (v, cc)
  Search-last client request id a e (Search.broken v i is x ea hard er) = absurd (cc)
  Search-last client request id a e (Search.full v i is x w1 ea f s) =
      Search-last client request id a e s

  module _ (Holds : W → AllocatedAddress → Type 0) (R : Remembers Holds) where
    module _ (cfg : ConnectionConfig) (client : Client W) (made : A.new_client cfg ≡ ok client)
        (a : AllocatedAddress) where
      gateway_details-Holds :
          (ids : List ℤ) (w : W) → Holds w a → Holds (gateway_details A claim pool client ids w).1 a
      gateway_details-Holds ids w h =
          gateway_details_kept A claim pool (λ v. Holds v a) client
            (λ refs v. R.resolving cfg client refs v a made)
            (λ is v. R.details cfg client is v a made) ids w h

    -- What EnsureAddress leaves when it succeeds: the record of the claim, and its address.
    record Recorded (result : IpAddress) (w : W) (a : AllocatedAddress) : Type 0 where
      holds : Holds w a
      address : result.address ≡ a.address
      prefix : result.prefix ≡ some a.prefix

    Source-Recorded :
        (address result : IpAddress) (w w' : W)
        → Source A claim pool address result w w'
        → (a : AllocatedAddress) × Recorded result w' a
    Source-Recorded address result w w' (Source.found client w1 w2 a ec ef ra rp ew) =
        let (cfg, made, e) = connect-made A claim pool client w w1 ec in
        let h = R.found cfg client w1 w2 a made ef in
        let h' = gateway_details-Holds cfg client made a pool.status.resolved_prefixes w2 h in
        (a, record { holds = rw ew h'; address = ra; prefix = rp })
    Source-Recorded address result w w'
          (Source.allocated client w1 w2 between w3 w4 metadata ids id a ec ef ecf pp em eu search
            ra rp rg ew) =
        let (cfg, made, e) = connect-made A claim pool client w w1 ec in
        let (v, last) =
          Search-last client (allocation_request A claim pool metadata) id a refl search in
        let h = R.allocates cfg client metadata id v w4 a made last in
        let h' = gateway_details-Holds cfg client made a ids w4 h in
        (a, record { holds = rw ew h'; address = ra; prefix = rp })

    Source-again :
        (address result : IpAddress) (w w' : W) (a : AllocatedAddress)
        → Holds w a
        → Source A claim pool address result w w'
        → Recorded result w' a
    Source-again address result w w' a h (Source.found client w1 w2 b ec ef ra rp ew) =
        let (cfg, made, e) = connect-made A claim pool client w w1 ec in
        let h1 = rw (sym e) at (
          R.secret (secret_namespace pool.namespace pool.spec.connection_secret_ref)
            pool.spec.connection_secret_ref.name w a h) in
        let same : some b ≡ some a = R.finds cfg client w1 w2 a (some b) made h1 ef in
        let h2 = R.found cfg client w1 w2 b made ef in
        let h3 = gateway_details-Holds cfg client made b pool.status.resolved_prefixes w2 h2 in
        rw (sym (some_injective same)) (record { holds = rw ew h3; address = ra; prefix = rp })
      where
        some_injective :
            {x y : AllocatedAddress} → ◌≡◌ {A = Option AllocatedAddress} (some x) (some y) → x ≡ y
        some_injective e = cc
    Source-again address result w w' a h
          (Source.allocated client w1 w2 between w3 w4 metadata ids id b ec ef ecf pp em eu search
            ra rp rg ew) =
        let (cfg, made, e) = connect-made A claim pool client w w1 ec in
        let h1 = rw (sym e) at (
          R.secret (secret_namespace pool.namespace pool.spec.connection_secret_ref)
            pool.spec.connection_secret_ref.name w a h) in
        let same : none ≡ some a = R.finds cfg client w1 w2 a none made h1 ef in absurd (cc)

    -- When EnsureAddress succeeds, and its result is lost before it reaches the cluster, a second run
    -- that succeeds gives the same address and prefix length, for a NetBox that keeps what it has
    -- recorded for a claim and finds it by the claim's UID.
    pub ensure_address_retry :
        (first second r1 r2 : IpAddress) (w w1 w2 : W)
        → is_empty first.address ≡ true
        → is_empty second.address ≡ true
        → ensure_address A claim pool first w ≡ (ok r1, w1)
        → ensure_address A claim pool second w1 ≡ (ok r2, w2)
        → (r2.address ≡ r1.address) × (r2.prefix ≡ r1.prefix)
    ensure_address_retry first second r1 r2 w w1 w2 e1 e2 h1 h2 =
        let (a, one) =
          Source-Recorded first r1 w w1 (ensure_address_source A claim pool first r1 w w1 e1 h1) in
        let two =
          Source-again second r2 w1 w2 a one.holds
            (ensure_address_source A claim pool second r2 w1 w2 e2 h2) in
        (two.address ∙ sym one.address, two.prefix ∙ sym one.prefix)
