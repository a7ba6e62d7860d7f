-- ===== src/Controller/Ledger/Allocating.antt =====
-- A record that is found again, and a new one, as EnsureAddress leaves them.
use cluster_api_ipam_provide.Base.{
  false, List, [], ◌∷◌, none, some, Result, ok, err, ◌≡◌, ◌⊎◌, inl, inr, refl, sym, Effect,
  wrapping, lift, Bool-cases, After, Ensures, After-any, After-weaken, Ensures-wrapping,
  Ensures-bind,
}
use cluster_api_ipam_provide.Base.Errors.{Error, is_no_available_ip}
use cluster_api_ipam_provide.Base.Int.{ℤ}
use cluster_api_ipam_provide.Api.{Pool, IpAddressClaim, IpAddress}
use cluster_api_ipam_provide.Netbox.Config.{ConnectionConfig}
use cluster_api_ipam_provide.Netbox.Defaults.{claim_uid_custom_field}
use cluster_api_ipam_provide.Netbox.Metadata.{EffectiveMetadata, effective_pool_metadata}
use cluster_api_ipam_provide.Netbox.Wire.{Client, AllocatedAddress}
use cluster_api_ipam_provide.Controller.Handler.{
  Adapter, Failure, plain, gateway_details, reuse, next_prefix, allocate_from, allocation_request,
  prefix_ids, with_gateway, allocate_new,
}
use cluster_api_ipam_provide.Controller.Handler.Reading.{gateway_details_kept}
use cluster_api_ipam_provide.Controller.Ledger.{Ledger, Keeps}
use cluster_api_ipam_provide.Controller.Ledger.Connecting.{Missed, Given}

module _ {W : Type 0} (A : Adapter W) (claim : IpAddressClaim) (pool : Pool)
    (Holds : W → Ledger → Type 0) (K : Keeps A claim pool Holds) where
  module _ (cfg : ConnectionConfig) (client : Client W) (made : A.new_client cfg ≡ ok client) where
    gateway_details-Holds :
        (l : Ledger) (ids : List ℤ) (w : W)
        → Holds w l
        → Holds (gateway_details A claim pool client ids w).1 l
    gateway_details-Holds l ids w h =
        gateway_details_kept A claim pool (λ v. Holds v l) client
          (λ refs v. K.resolving cfg client refs l v made)
          (λ is v. K.details cfg client is l v made) ids w h

    pub reuse-Given :
        (address : IpAddress) (a : AllocatedAddress)
        → Ensures
            (Given Holds (some a))
            (λ f. Missed Holds (some a))
            (λ v. Holds v (some a))
            (reuse A claim pool client address a)
    unfolding reuse
    reuse-Given address a w h = record {
      a = a;
      was = inr refl;
      holds = gateway_details-Holds (some a) pool.status.resolved_prefixes w h;
      address = refl;
      prefix = refl;
    }

    -- an allocation made the record
    abbrev Allocated : ℤ × AllocatedAddress → W → Type 0
    Allocated p w = Holds w (some p.1)

    next_prefix-Allocated :
        (id : ℤ) (rest : Effect W Failure (ℤ × AllocatedAddress))
        (r : Result Error AllocatedAddress) (w : W)
        → After
            (λ a v. Holds v (some a))
            (λ e v.
              Holds v none
              ⊎ ((is_no_available_ip e ≡ false) × ((a : AllocatedAddress) × Holds v (some a))))
            r
            w
        → Ensures Allocated (λ f. Missed Holds none) (λ v. Holds v none) rest
        → After Allocated
            (λ f. Missed Holds none)
            (next_prefix A claim pool id rest r w).0
            (next_prefix A claim pool id rest r w).1
    next_prefix-Allocated id rest (ok a) w h k = h
    next_prefix-Allocated id rest (err e) w (inl h) k = elim (Bool-cases (is_no_available_ip e)) [
      | inl full ↦ rw full (k w h)
      | inr hard ↦ rw hard (inl h)
    ]
    next_prefix-Allocated id rest (err e) w (inr (hard, (a, h))) k = rw hard (inr (refl, (a, h)))

    allocate_from-Allocated :
        (metadata : EffectiveMetadata) (ids : List ℤ)
        → Ensures Allocated
            (λ f. Missed Holds none)
            (λ v. Holds v none)
            (allocate_from A claim pool client (allocation_request A claim pool metadata) ids)
    unfolding allocate_from
    allocate_from-Allocated metadata [] w h = inl h
    allocate_from-Allocated metadata (id ∷ ids) w h =
        let request = allocation_request A claim pool metadata in
        let (r, w') = client.allocate_ip_address id request w in
        next_prefix-Allocated id (allocate_from A claim pool client request ids) r w'
          (K.allocating cfg client id metadata w made h) (allocate_from-Allocated metadata ids)

    with_gateway-Given :
        (ids : List ℤ) (address : IpAddress) (p : ℤ × AllocatedAddress)
        → Ensures
            (Given Holds none)
            (λ f. Missed Holds none)
            (Allocated p)
            (with_gateway A claim pool client ids address p)
    unfolding with_gateway
    with_gateway-Given ids address p w h = record {
      a = p.1;
      was = inl refl;
      holds = gateway_details-Holds (some p.1) ids w h;
      address = refl;
      prefix = refl;
    }

    -- a call that leaves no record, in the chain of the allocation
    unrecorded :
        {B : Type 0} (m : Effect W Error B)
        → ((w : W) → Holds w none → Holds (m w).1 none)
        → Ensures
            (λ (b : B) v. Holds v none)
            (λ f. Missed Holds none)
            (λ v. Holds v none)
            (wrapping plain m)
    unrecorded m k =
        Ensures-wrapping (λ b v. Holds v none) (λ f. Missed Holds none) plain m
          (λ w h.
            After-weaken (λ b v. Holds v none) (λ b v. Holds v none) (λ e v. Holds v none)
              (λ e. Missed Holds none) (m w).0 (m w).1 (λ b q. q) (λ e q. inl q)
              (After-any (λ v. Holds v none) (m w).0 (m w).1 (k w h)))

    prefix_ids-Holds : (w : W) → Holds w none → Holds (prefix_ids A claim pool client w).1 none
    prefix_ids-Holds w h =
        elim pool.status.resolved_prefixes
            as (λ is.
              (is ≡ pool.status.resolved_prefixes)
              → Holds (prefix_ids A claim pool client w).1 none) [
                | i ∷ is ↦ λ e. rw (sym e) h
                | [] ↦ λ e. rw (sym e) (K.resolving cfg client pool.spec.prefixes none w made h)
              ]
          refl

    pub allocate_new-Given :
        (address : IpAddress)
        → Ensures
            (Given Holds none)
            (λ f. Missed Holds none)
            (λ v. Holds v none)
            (allocate_new A claim pool client address)
    unfolding allocate_new
    allocate_new-Given address =
        let field = claim_uid_custom_field pool.spec in
        Ensures-bind (λ u v. Holds v none) (Given Holds none) (λ f. Missed Holds none)
          (wrapping plain (client.ensure_ip_address_custom_field field)) _
          (unrecorded (client.ensure_ip_address_custom_field field)
            (λ w. K.custom_field cfg client field none w made))
          (λ u.
            Ensures-bind (λ ids v. Holds v none) (Given Holds none) (λ f. Missed Holds none)
              (wrapping plain (prefix_ids A claim pool client)) _
              (unrecorded (prefix_ids A claim pool client) prefix_ids-Holds)
              (λ ids.
                Ensures-bind (λ metadata v. Holds v none) (Given Holds none)
                  (λ f. Missed Holds none)
                  (wrapping plain (
                    lift (
                      effective_pool_metadata A.unmarshal pool.spec.metadata_defaults
                        claim.annotations)))
                  _
                  (unrecorded
                    (lift (
                      effective_pool_metadata A.unmarshal pool.spec.metadata_defaults
                        claim.annotations))
                    (λ w h. h))
                  (λ metadata.
                    Ensures-bind Allocated (Given Holds none) (λ f. Missed Holds none)
                      (allocate_from A claim pool client (allocation_request A claim pool metadata)
                        ids)
                      _ (allocate_from-Allocated metadata ids)
                      (λ p. with_gateway-Given ids address p))))
