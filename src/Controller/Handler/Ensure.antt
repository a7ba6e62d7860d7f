-- ===== src/Controller/Handler/Ensure.antt =====
-- What `EnsureAddress` does: which prefix it allocates from, when it allocates at all, and what its
-- errors show.
use cluster_api_ipam_provide.Base.{
  true, false, List, [], ◌∷◌, Option, none, some, Result, ok, err, ◌≡◌, ◌↔◌, refl, inl, inr, ap,
  Effect, Bool-cases, wrapping, lift, ◌∙◌, >>=_ok, wrapping_ok, ok_injective, sym,
}
use cluster_api_ipam_provide.Base.Text.{is_empty}
use cluster_api_ipam_provide.Base.Errors.{Error, is_no_available_ip}
use cluster_api_ipam_provide.Base.Int.{ℤ}
use cluster_api_ipam_provide.Api.{Pool, IpAddressClaim, IpAddress}
use cluster_api_ipam_provide.Netbox.Defaults.{ownership_tag, claim_uid_custom_field}
use cluster_api_ipam_provide.Netbox.Metadata.{EffectiveMetadata, effective_pool_metadata}
use cluster_api_ipam_provide.Netbox.Wire.{Client, AllocationRequest, AllocatedAddress}
use cluster_api_ipam_provide.Controller.ResolvedPrefixes.{gateway_for_prefix_id}
use cluster_api_ipam_provide.Controller.Handler.{
  Adapter, Failure, plain, exhausted, sanitized, connect, find_own, gateway_details, allocate_from,
  next_prefix, reuse, obtain_address, ensure_address, allocate_new, with_gateway, reuse_or_allocate,
  prefix_ids, allocation_request,
}

module _ {W : Type 0} (A : Adapter W) (claim : IpAddressClaim) (pool : Pool) where
  module _ (client : Client W) (request : AllocationRequest) where
    -- How the search through the prefixes goes from a state of the world, to its result `r` and the
    -- state `w'` at its end: past full prefixes only, up to the first that is not full.
    pub data Search (r : Result Failure (ℤ × AllocatedAddress)) (w' : W) : W → List ℤ → Type 0 where
      none_left : (w : W) → r ≡ err exhausted → w' ≡ w → Search r w' w []
      taken :
          (w : W) (id : ℤ) (ids : List ℤ) (a : AllocatedAddress)
          → client.allocate_ip_address id request w ≡ (ok a, w')
          → r ≡ ok (id, a)
          → Search r w' w (id ∷ ids)
      broken :
          (w : W) (id : ℤ) (ids : List ℤ) (e : Error)
          → client.allocate_ip_address id request w ≡ (err e, w')
          → is_no_available_ip e ≡ false
          → r ≡ err (plain e)
          → Search r w' w (id ∷ ids)
      full :
          (w : W) (id : ℤ) (ids : List ℤ) (e : Error) (w1 : W)
          → client.allocate_ip_address id request w ≡ (err e, w1)
          → is_no_available_ip e ≡ true
          → Search r w' w1 ids
          → Search r w' w (id ∷ ids)

    Search-next :
        (w w1 w' : W) (id : ℤ) (ids : List ℤ) (rest : Effect W Failure (ℤ × AllocatedAddress))
        (answer : Result Error AllocatedAddress) (r : Result Failure (ℤ × AllocatedAddress))
        → client.allocate_ip_address id request w ≡ (answer, w1)
        → next_prefix A claim pool id rest answer w1 ≡ (r, w')
        → (rest w1 ≡ (r, w') → Search r w' w1 ids)
        → Search r w' w (id ∷ ids)
    Search-next w w1 w' id ids rest (ok a) r e k ih = taken w id ids a (cc) (cc)
    Search-next w w1 w' id ids rest (err x) r e k ih = elim (Bool-cases (is_no_available_ip x)) [
      | inl none_free ↦ full w id ids x w1 e none_free (ih (rw none_free at k))
      | inr hard ↦ let k' = rw hard at k in broken w id ids x (cc) hard (cc)
    ]

    allocate_from_sound :
        (ids : List ℤ) (w w' : W) (r : Result Failure (ℤ × AllocatedAddress))
        → allocate_from A claim pool client request ids w ≡ (r, w')
        → Search r w' w ids
    unfolding allocate_from
    allocate_from_sound [] w w' r h = none_left w (cc) (cc)
    allocate_from_sound (id ∷ ids) w w' r h =
        let (answer, w1) = client.allocate_ip_address id request w in
        Search-next w w1 w' id ids (allocate_from A claim pool client request ids) answer r refl h
          (allocate_from_sound ids w1 w' r)

    allocate_from_complete :
        {r : Result Failure (ℤ × AllocatedAddress)} {w' w : W} {ids : List ℤ}
        → Search r w' w ids
        → allocate_from A claim pool client request ids w ≡ (r, w')
    unfolding allocate_from
    allocate_from_complete (none_left w er ew) = rw (er, ew)
    allocate_from_complete (taken w id ids a e er) = rw (e, er)
    allocate_from_complete (broken w id ids e ea hard er) = rw (ea, hard, er)
    allocate_from_complete (full w id ids e w1 ea f s) = rw (ea) (rw f (allocate_from_complete s))

    -- The search tries the prefixes in order, goes on past those that are full and past nothing else,
    -- and ends with the first address that it gets, with the first other error, or, when every prefix
    -- is full, with "pool exhausted" and a new try after 15 seconds; it does all this, and only this,
    -- to the world.
    pub allocate_from_iff :
        (ids : List ℤ) (w w' : W) (r : Result Failure (ℤ × AllocatedAddress))
        → (allocate_from A claim pool client request ids w ≡ (r, w')) ↔ Search r w' w ids
    allocate_from_iff ids w w' r = (allocate_from_sound ids w w' r, allocate_from_complete)

  -- The prefixes of the pool: the cached ones, or if none is cached those that its references resolve to.
  pub data PoolPrefixes (client : Client W) (w : W) (ids : List ℤ) (w' : W) : Type 0 where
    cached :
        (id : ℤ) (more : List ℤ)
        → pool.status.resolved_prefixes ≡ id ∷ more
        → ids ≡ id ∷ more
        → w' ≡ w
        → PoolPrefixes client w ids w'
    resolved :
        pool.status.resolved_prefixes ≡ []
        → client.resolve_prefix_ids pool.spec.prefixes w ≡ (ok ids, w')
        → PoolPrefixes client w ids w'

  prefix_ids-PoolPrefixes :
      (client : Client W) (w w' : W) (ids in_cache : List ℤ)
      → pool.status.resolved_prefixes ≡ in_cache
      → prefix_ids A claim pool client w ≡ (ok ids, w')
      → PoolPrefixes client w ids w'
  prefix_ids-PoolPrefixes client w w' ids [] e h = resolved e (rw e at h)
  prefix_ids-PoolPrefixes client w w' ids (id ∷ more) e h =
      let (same, stays) = ok_injective (rw e at h) in cached id more e (sym same) (sym stays)

  -- Where an address comes from: NetBox's record of this claim's UID if there is one, and then
  -- nothing is allocated; otherwise a new allocation from the pool's prefixes.
  pub data Source (address result : IpAddress) (w w' : W) : Type 0 where
    found :
        (client : Client W) (w1 w2 : W) (a : AllocatedAddress)
        → connect A claim pool w ≡ (ok client, w1)
        → client.find_ip_address_by_claim_uid
            (ownership_tag pool.spec)
            (claim_uid_custom_field pool.spec)
            claim.uid
            w1
          ≡ (ok (some a), w2)
        → result.address ≡ a.address
        → result.prefix ≡ some a.prefix
        → w' ≡ (gateway_details A claim pool client pool.status.resolved_prefixes w2).1
        → Source address result w w'
    allocated :
        (client : Client W) (w1 w2 between w3 w4 : W) (metadata : EffectiveMetadata) (ids : List ℤ)
        (id : ℤ) (a : AllocatedAddress)
        → connect A claim pool w ≡ (ok client, w1)
        → client.find_ip_address_by_claim_uid
            (ownership_tag pool.spec)
            (claim_uid_custom_field pool.spec)
            claim.uid
            w1
          ≡ (ok none, w2)
        → client.ensure_ip_address_custom_field (claim_uid_custom_field pool.spec) w2
          ≡ (ok tt, between)
        → PoolPrefixes client between ids w3
        → effective_pool_metadata A.unmarshal pool.spec.metadata_defaults claim.annotations
          ≡ ok metadata
        → (allocation_request A claim pool metadata).claim_uid ≡ claim.uid
        → Search client (allocation_request A claim pool metadata) (ok (id, a)) w4 w3 ids
        → result.address ≡ a.address
        → result.prefix ≡ some a.prefix
        → result.gateway ≡ gateway_for_prefix_id (gateway_details A claim pool client ids w4).0 id
        → w' ≡ (gateway_details A claim pool client ids w4).1
        → Source address result w w'

  with_gateway_lem :
      (client : Client W) (ids : List ℤ) (address result : IpAddress) (id : ℤ)
      (a : AllocatedAddress) (w w' : W)
      → with_gateway A claim pool client ids address (id, a) w ≡ (ok result, w')
      → (result.address ≡ a.address)
        × (result.prefix ≡ some a.prefix)
        × (result.gateway ≡ gateway_for_prefix_id (gateway_details A claim pool client ids w).0 id)
        × (w' ≡ (gateway_details A claim pool client ids w).1)
  unfolding with_gateway
  with_gateway_lem client ids address result id a w w' h =
      let (e, k) = ok_injective h in
      (
        ap (λ (r : IpAddress). r.address) (sym e),
        ap (λ (r : IpAddress). r.prefix) (sym e),
        ap (λ (r : IpAddress). r.gateway) (sym e),
        sym k,
      )

  allocate_new_source :
      (client : Client W) (address result : IpAddress) (w w1 w2 w' : W)
      → connect A claim pool w ≡ (ok client, w1)
      → find_own A claim pool client w1 ≡ (ok none, w2)
      → allocate_new A claim pool client address w2 ≡ (ok result, w')
      → Source address result w w'
  unfolding allocate_new
  allocate_new_source client address result w w1 w2 w' ec ef h =
      let (u, w3, eu, h1) =
        >>=_ok
          (wrapping plain
            (client.ensure_ip_address_custom_field (claim_uid_custom_field pool.spec)))
          _ w2 w' result h in
      let (ids, w4, ei, h2) =
        >>=_ok (wrapping plain (prefix_ids A claim pool client)) _ w3 w' result h1 in
      let (metadata, w5, em, h3) =
        >>=_ok
          (wrapping plain (
            lift
              (effective_pool_metadata A.unmarshal pool.spec.metadata_defaults claim.annotations)))
          _ w4 w' result h2 in
      let ((id, a), w6, ea, h4) =
        >>=_ok (allocate_from A claim pool client (allocation_request A claim pool metadata) ids) _
          w5 w' result h3 in
      let (ra, rp, rg, rw') = with_gateway_lem client ids address result id a w6 w' h4 in
      let read =
        wrapping_ok plain
          (lift (effective_pool_metadata A.unmarshal pool.spec.metadata_defaults claim.annotations))
          w4 w5 metadata em in
      let listed = wrapping_ok plain (prefix_ids A claim pool client) w3 w4 ids ei in
      allocated client w1 w2 w3 w5 w6 metadata ids id a ec ef
        (wrapping_ok plain
          (client.ensure_ip_address_custom_field (claim_uid_custom_field pool.spec)) w2 w3 u eu)
        (prefix_ids-PoolPrefixes client w3 w5 ids pool.status.resolved_prefixes refl
          (listed ∙ ap (λ v. (ok ids, v)) (ap (λ q. q.1) read)))
        (ap (λ q. q.0) read) refl
        (allocate_from_sound client (allocation_request A claim pool metadata) ids w5 w6
          (ok (id, a)) ea)
        ra rp rg rw'

  reuse_source :
      (client : Client W) (address result : IpAddress) (a : AllocatedAddress) (w w1 w2 w' : W)
      → connect A claim pool w ≡ (ok client, w1)
      → find_own A claim pool client w1 ≡ (ok (some a), w2)
      → reuse A claim pool client address a w2 ≡ (ok result, w')
      → Source address result w w'
  unfolding reuse
  reuse_source client address result a w w1 w2 w' ec ef h =
      let (e, k) = ok_injective h in
      found client w1 w2 a ec ef (ap (λ (r : IpAddress). r.address) (sym e))
        (ap (λ (r : IpAddress). r.prefix) (sym e)) (sym k)

  obtain_source :
      (client : Client W) (address result : IpAddress) (o : Option AllocatedAddress)
      (w w1 w2 w' : W)
      → connect A claim pool w ≡ (ok client, w1)
      → find_own A claim pool client w1 ≡ (ok o, w2)
      → reuse_or_allocate A claim pool client address o w2 ≡ (ok result, w')
      → Source address result w w'
  obtain_source client address result (some a) w w1 w2 w' ec ef h =
      reuse_source client address result a w w1 w2 w' ec ef h
  obtain_source client address result none w w1 w2 w' ec ef h =
      allocate_new_source client address result w w1 w2 w' ec ef h

  -- When EnsureAddress succeeds for an address that was not set, that address comes from NetBox's
  -- record of the claim's UID, and then nothing was allocated; or, if NetBox had no such record, from
  -- the first prefix with a free address among the pool's, which are the cached ones, or if none is
  -- cached those that its references resolve to, asked for under the claim's UID.
  pub ensure_address_source :
      (address result : IpAddress) (w w' : W)
      → is_empty address.address ≡ true
      → ensure_address A claim pool address w ≡ (ok result, w')
      → Source address result w w'
  unfolding ensure_address obtain_address
  ensure_address_source address result w w' empty h =
      let h0 =
        wrapping_ok sanitized (obtain_address A claim pool address) w w' result (rw empty at h) in
      let (client, w1, ec, h1) = >>=_ok (wrapping plain (connect A claim pool)) _ w w' result h0 in
      let (o, w2, ef, h2) =
        >>=_ok (wrapping plain (find_own A claim pool client)) _ w1 w' result h1 in
      obtain_source client address result o w w1 w2 w'
        (wrapping_ok plain (connect A claim pool) w w1 client ec)
        (wrapping_ok plain (find_own A claim pool client) w1 w2 o ef) h2
