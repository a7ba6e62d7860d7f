-- ===== src/Controller/Releasing/Released.antt =====
-- What `ReleaseAddress` deletes in NetBox, and when it holds the claim back.
use cluster_api_ipam_provide.Base.{
  Option, none, some, ok, ◌≡◌, wrapping, >>=_ok, wrapping_ok, ok_injective,
}
use cluster_api_ipam_provide.Api.{Pool, IpAddressClaim, IpAddress}
use cluster_api_ipam_provide.Netbox.Wire.{Client, AllocatedAddress}
use cluster_api_ipam_provide.Controller.Handler.{
  Adapter, plain, sanitized, connect, find_own, netbox_address_candidates,
}
use cluster_api_ipam_provide.Controller.Releasing.{
  find_by_candidates, find_existing_netbox_ip, or_by_candidates, delete_or_report, read_address,
  release_from_netbox, release_address,
}

module _ {W : Type 0} (A : Adapter W) (claim : IpAddressClaim) (pool : Pool) where
  -- How NetBox's record of a claim is looked for: by the claim's UID, and only if that finds nothing
  -- by the address that the cluster has, with its prefix length and then without.
  pub data Located (client : Client W) (k8s : Option IpAddress) (o : Option AllocatedAddress)
      (w w' : W) : Type 0 where
    by_uid :
        (a : AllocatedAddress)
        → find_own A claim pool client w ≡ (ok (some a), w')
        → o ≡ some a
        → Located client k8s o w w'
    by_address :
        (w1 : W)
        → find_own A claim pool client w ≡ (ok none, w1)
        → find_by_candidates A claim pool client (netbox_address_candidates k8s) w1 ≡ (ok o, w')
        → Located client k8s o w w'

  -- A release that succeeds, for a claim whose address the cluster reads as `k8s`: the record that is
  -- found is deleted, and none may be missing unless the cluster has no address either.
  pub data Released (w w' : W) : Type 0 where
    deleted :
        (client : Client W) (k8s : Option IpAddress) (a : AllocatedAddress) (w1 w2 w3 : W)
        → read_address A claim pool w ≡ (ok k8s, w1)
        → connect A claim pool w1 ≡ (ok client, w2)
        → Located client k8s (some a) w2 w3
        → client.delete_ip_address a.id w3 ≡ (ok tt, w')
        → Released w w'
    nothing :
        (client : Client W) (w1 w2 : W)
        → read_address A claim pool w ≡ (ok none, w1)
        → connect A claim pool w1 ≡ (ok client, w2)
        → Located client none none w2 w'
        → Released w w'

  or_by_candidates-Located :
      (client : Client W) (k8s : Option IpAddress) (found o : Option AllocatedAddress) (w w1 w' : W)
      → find_own A claim pool client w ≡ (ok found, w1)
      → or_by_candidates A claim pool client k8s found w1 ≡ (ok o, w')
      → Located client k8s o w w'
  or_by_candidates-Located client k8s (some a) o w w1 w' ef h = by_uid a (cc) (cc)
  or_by_candidates-Located client k8s none o w w1 w' ef h = by_address w1 ef h

  find_existing-Located :
      (client : Client W) (k8s : Option IpAddress) (o : Option AllocatedAddress) (w w' : W)
      → find_existing_netbox_ip A claim pool client k8s w ≡ (ok o, w')
      → Located client k8s o w w'
  unfolding find_existing_netbox_ip
  find_existing-Located client k8s o w w' h =
      let (found, w1, ef, h1) = >>=_ok (find_own A claim pool client) _ w w' o h in
      or_by_candidates-Located client k8s found o w w1 w' ef h1

  delete_or_report-Released :
      (client : Client W) (k8s : Option IpAddress) (o : Option AllocatedAddress) (w w1 w2 w3 w' : W)
      → read_address A claim pool w ≡ (ok k8s, w1)
      → connect A claim pool w1 ≡ (ok client, w2)
      → Located client k8s o w2 w3
      → delete_or_report A claim pool client k8s o w3 ≡ (ok tt, w')
      → Released w w'
  delete_or_report-Released client k8s (some a) w w1 w2 w3 w' er ec l h =
      deleted client k8s a w1 w2 w3 er ec l
        (wrapping_ok plain (client.delete_ip_address a.id) w3 w' tt h)
  delete_or_report-Released client none none w w1 w2 w3 w' er ec l h =
      nothing client w1 w2 er ec (rw (ok_injective h).1 at l)
  delete_or_report-Released client (some k) none w w1 w2 w3 w' er ec l h = absurd (cc)

  -- A release that succeeds has deleted NetBox's record of the claim, found by the claim's UID or
  -- else by the address, or NetBox has no such record and the cluster has no address object either.
  pub release_address-Released :
      (w w' : W) → release_address A claim (some pool) w ≡ (ok tt, w') → Released w w'
  unfolding release_address release_from_netbox
  release_address-Released w w' h =
      let h0 = wrapping_ok sanitized (release_from_netbox A claim pool) w w' tt h in
      let (k8s, w1, er, h1) = >>=_ok (read_address A claim pool) _ w w' tt h0 in
      let (client, w2, ec, h2) = >>=_ok (wrapping plain (connect A claim pool)) _ w1 w' tt h1 in
      let (o, w3, el, h3) =
        >>=_ok (wrapping plain (find_existing_netbox_ip A claim pool client k8s)) _ w2 w' tt h2 in
      delete_or_report-Released client k8s o w w1 w2 w3 w' er
        (wrapping_ok plain (connect A claim pool) w1 w2 client ec)
        (find_existing-Located client k8s o w2 w3
          (wrapping_ok plain (find_existing_netbox_ip A claim pool client k8s) w2 w3 o el))
        h3
