-- ===== src/Ipamutil/Reconcile/Guards.antt =====
-- When a claim is reconciled at all.
use cluster_api_ipam_provide.Base.{
  true, false, not, Option, none, some, Result, ok, err, ◌≡◌, refl, if_both, arith,
}
use cluster_api_ipam_provide.Base.Errors.{Error, is_not_found}
use cluster_api_ipam_provide.Api.{IpAddressClaim}
use cluster_api_ipam_provide.Cluster.{Kube, Controllerutil, Outcome, Key, LinkedCluster}
use cluster_api_ipam_provide.Ipamutil.Reconciler.{ClaimHandler, done, failed, get_linked_cluster}
use cluster_api_ipam_provide.Ipamutil.Reconcile.{
  reconcile_and_patch, reconcile_linked, after_linking, after_getting, reconcile,
}

module _ {W : Type 0} (kube : Kube W) (util : Controllerutil W)
    (handler_for : IpAddressClaim → ClaimHandler W) where
  -- What holds a reconcile of a claim back, given what the search for its cluster returned.
  pub data Held (claim : IpAddressClaim)
      : Result Error (Option LinkedCluster) → Outcome → Type 0 where
    unreadable :
        (e : Error) (o : Outcome) → is_not_found e ≡ false → o ≡ failed e → Held claim (err e) o
    no_cluster :
        (e : Error) (o : Outcome)
        → is_not_found e ≡ true
        → claim.deleting ≡ false
        → o ≡ done
        → Held claim (err e) o
    paused :
        (cluster : LinkedCluster) (o : Outcome)
        → cluster.paused ≡ true
        → o ≡ done
        → Held claim (ok (some cluster)) o

  -- What lets it through.
  pub data Free (claim : IpAddressClaim) : Result Error (Option LinkedCluster) → Type 0 where
    outlives : (e : Error) → is_not_found e ≡ true → claim.deleting ≡ true → Free claim (err e)
    unlinked : Free claim (ok none)
    running : (cluster : LinkedCluster) → cluster.paused ≡ false → Free claim (ok (some cluster))

  -- The course of a reconcile for a key.
  pub data Course (key : Key) (w : W) (r : Outcome × W) : Type 0 where
    absent :
        (e : Error) (w1 : W)
        → kube.get_claim key.namespace key.name w ≡ (err e, w1)
        → r.1 ≡ w1
        → Course key w r
    held :
        (claim : IpAddressClaim) (linked : Result Error (Option LinkedCluster)) (w1 w2 : W)
        → kube.get_claim key.namespace key.name w ≡ (ok claim, w1)
        → get_linked_cluster kube util claim w1 ≡ (linked, w2)
        → Held claim linked r.0
        → r.1 ≡ w2
        → Course key w r
    free :
        (claim : IpAddressClaim) (linked : Result Error (Option LinkedCluster)) (w1 w2 : W)
        → kube.get_claim key.namespace key.name w ≡ (ok claim, w1)
        → get_linked_cluster kube util claim w1 ≡ (linked, w2)
        → Free claim linked
        → r ≡ reconcile_and_patch kube util handler_for claim w2
        → Course key w r

  after_linking_course :
      (key : Key) (claim : IpAddressClaim) (linked : Result Error (Option LinkedCluster))
      (w w1 w2 : W)
      → kube.get_claim key.namespace key.name w ≡ (ok claim, w1)
      → get_linked_cluster kube util claim w1 ≡ (linked, w2)
      → Course key w (after_linking kube util handler_for claim linked w2)
  after_linking_course key claim (ok none) w w1 w2 eg el =
      free claim (ok none) w1 w2 eg el unlinked refl
  after_linking_course key claim (ok (some cluster)) w w1 w2 eg el =
      if_both (Course key w) cluster.paused (done, w2)
        (reconcile_and_patch kube util handler_for claim w2)
        (λ p. held claim (ok (some cluster)) w1 w2 eg el (paused cluster done p refl) refl)
        (λ p. free claim (ok (some cluster)) w1 w2 eg el (running cluster p) refl)
  after_linking_course key claim (err e) w w1 w2 eg el =
      if_both (Course key w) (not (is_not_found e)) (failed e, w2) _
        (λ hard. held claim (err e) w1 w2 eg el (unreadable e (failed e) (ground arith) refl) refl)
        (λ absent.
          if_both (Course key w) (not claim.deleting) (done, w2)
            (reconcile_and_patch kube util handler_for claim w2)
            (λ live.
              held claim (err e) w1 w2 eg el (no_cluster e done (ground arith) (ground arith) refl)
                refl)
            (λ deleted.
              free claim (err e) w1 w2 eg el (outlives e (ground arith) (ground arith)) refl))

  after_getting_course :
      (key : Key) (got : Result Error IpAddressClaim) (w w1 : W)
      → kube.get_claim key.namespace key.name w ≡ (got, w1)
      → Course key w (after_getting kube util handler_for got w1)
  unfolding reconcile_linked
  after_getting_course key (err e) w w1 eg = absent e w1 eg refl
  after_getting_course key (ok claim) w w1 eg =
      let (linked, w2) = get_linked_cluster kube util claim w1 in
      after_linking_course key claim linked w w1 w2 eg refl

  -- A reconcile for a key goes one of three ways. Where the claim cannot be read, nothing else
  -- happens. Where its cluster cannot be read, is missing while the claim is not being deleted, or is
  -- paused, nothing happens after that reading, and an error is returned in the first case only.
  -- Otherwise, and also for a claim that is being deleted and whose cluster is missing, the claim is
  -- reconciled and patched.
  pub reconcile_course : (key : Key) (w : W) → Course key w (reconcile kube util handler_for key w)
  unfolding reconcile
  reconcile_course key w =
      let (got, w1) = kube.get_claim key.namespace key.name w in
      after_getting_course key got w w1 refl
