-- ===== src/Controller/Handler/Reading.antt =====
-- What the claim handler only reads: the settings, and the details of prefixes.
use cluster_api_ipam_provide.Base.{List, [], ◌∷◌, Result, ok, err, ◌≡◌, sym, ap, ◌∙◌, >>=_ok}
use cluster_api_ipam_provide.Base.Errors.{Error}
use cluster_api_ipam_provide.Base.Int.{ℤ}
use cluster_api_ipam_provide.Api.{Pool, IpAddressClaim, ResolvedPrefix, NetBoxPrefixReference}
use cluster_api_ipam_provide.Netbox.Config.{
  ConnectionConfig, load_connection_config, secret_namespace,
}
use cluster_api_ipam_provide.Netbox.Wire.{Client}
use cluster_api_ipam_provide.Controller.Handler.{
  Adapter, connect, live_details, details_of, after_resolving, cached_or, gateway_details,
}

module _ {W : Type 0} (A : Adapter W) (claim : IpAddressClaim) (pool : Pool) where
  -- How a client that `connect` gives was made, and that connecting only reads.
  pub connect-made :
      (client : Client W) (w w' : W)
      → connect A claim pool w ≡ (ok client, w')
      → (cfg : ConnectionConfig) × (A.new_client cfg ≡ ok client)
        × (w'
            ≡ (A.kube.get_secret
                (secret_namespace pool.namespace pool.spec.connection_secret_ref)
                pool.spec.connection_secret_ref.name
                w).1)
  unfolding connect load_connection_config
  connect-made client w w' h =
      let (cfg, w1, e, h1) =
        >>=_ok
          (load_connection_config A.kube.get_secret pool.namespace pool.spec.connection_secret_ref)
          _ w w' client h in
      (
        record cfg { request_timeout = A.request_timeout },
        ap (λ q. q.0) h1,
        sym (ap (λ q. q.1) h1) ∙ sym (ap (λ q. q.1) e),
      )

  module _ (P : W → Type 0) (client : Client W)
      (resolving : (refs : List NetBoxPrefixReference) (w : W)
        → P w
        → P (client.resolve_prefix_ids refs w).1)
      (details : (ids : List ℤ) (w : W) → P w → P (client.get_prefix_details ids w).1) where
    live_details_kept : (ids : List ℤ) (w : W) → P w → P (live_details A claim pool client ids w).1
    unfolding live_details
    live_details_kept ids w h = details ids w h

    after_resolving_kept :
        (r : Result Error (List ℤ)) (w : W) → P w → P (after_resolving A claim pool client r w).1
    after_resolving_kept (err e) w h = h
    after_resolving_kept (ok ids) w h = live_details_kept ids w h

    details_of_kept : (ids : List ℤ) (w : W) → P w → P (details_of A claim pool client ids w).1
    unfolding details_of
    details_of_kept [] w h =
        let (r, w') = client.resolve_prefix_ids pool.spec.prefixes w in
        after_resolving_kept r w' (resolving pool.spec.prefixes w h)
    details_of_kept (i ∷ is) w h = live_details_kept (i ∷ is) w h

    cached_or_kept :
        (ids : List ℤ) (cached : List ResolvedPrefix) (w : W)
        → P w
        → P (cached_or A claim pool client ids cached w).1
    cached_or_kept ids [] w h = details_of_kept ids w h
    cached_or_kept ids (d ∷ ds) w h = h

    -- The search for a gateway keeps whatever the two reads keep.
    pub gateway_details_kept :
        (ids : List ℤ) (w : W) → P w → P (gateway_details A claim pool client ids w).1
    unfolding gateway_details
    gateway_details_kept ids w h = cached_or_kept ids pool.status.resolved_prefix_details w h
