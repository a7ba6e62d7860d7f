-- ===== src/Ipamutil/Reconcile/Protected.antt =====
-- That a claim is held in the cluster before anything is done for it.
use cluster_api_ipam_provide.Base.{
  String, false, List, Result, ok, err, ◌≡◌, refl, inl, inr, Bool-cases,
}
use mathlib.Core.List.{Memᴰ}
use cluster_api_ipam_provide.Base.Errors.{Error}
use cluster_api_ipam_provide.Api.{IpAddressClaim}
use cluster_api_ipam_provide.Cluster.{Kube, Controllerutil, Outcome}
use cluster_api_ipam_provide.Ipamutil.Reconciler.{
  ClaimHandler, done, failed, release_address_finalizer,
}
use cluster_api_ipam_provide.Ipamutil.Reconcile.{
  reconcile_claim_address, finalize_or_reconcile, aggregated, after_preparing, reconcile_and_patch,
}

-- What `controllerutil.AddFinalizer` promises where it reports that it changed nothing.
pub record AddsFinalizers {W : Type 0} (util : Controllerutil W) : Type 0 where
  pub unchanged :
      (f : String) (fs : List String)
      → (util.add_finalizer f fs).1 ≡ false
      → (util.add_finalizer f fs).0 ≡ fs
  pub present : (f : String) (fs : List String) → (util.add_finalizer f fs).1 ≡ false → Memᴰ f fs

module _ {W : Type 0} (kube : Kube W) (util : Controllerutil W)
    (handler_for : IpAddressClaim → ClaimHandler W) (claim : IpAddressClaim) where
  -- the claim with the finalizer that holds it
  abbrev pub held : IpAddressClaim
  held = record claim {
    finalizers = (util.add_finalizer release_address_finalizer claim.finalizers).0;
  }

  -- What a reconcile does from the state `w` on, with what it returns: it only prepares the patch; or
  -- only writes the finalizer, and leaves the claim to the next reconcile; or runs the handler, for a
  -- claim that has the finalizer already, as it was read.
  pub data Course (w : W) (r : Outcome × W) : Type 0 where
    unprepared : (e : Error) → kube.new_claim_helper claim ≡ err e → r ≡ (failed e, w) → Course w r
    writes_finalizer :
        (answer : Result Error (Unit {0})) (w1 : W)
        → kube.patch_claim claim held w ≡ (answer, w1)
        → r ≡ (aggregated kube util handler_for done answer, w1)
        → Course w r
    runs :
        (after : IpAddressClaim) (outcome : Outcome) (answer : Result Error (Unit {0})) (w1 w2 : W)
        → Memᴰ release_address_finalizer claim.finalizers
        → reconcile_claim_address kube util (handler_for claim) claim w ≡ ((after, outcome), w1)
        → kube.patch_claim claim after w1 ≡ (answer, w2)
        → r ≡ (aggregated kube util handler_for outcome answer, w2)
        → Course w r

  module _ (U : AddsFinalizers util) where
    same_claim :
        (fs : List String) → fs ≡ claim.finalizers → record claim { finalizers = fs } ≡ claim
    same_claim fs e = rw e refl

    after_preparing-Course :
        (prepared : Result Error (Unit {0})) (w : W)
        → kube.new_claim_helper claim ≡ prepared
        → Course w (after_preparing kube util handler_for claim prepared w)
    unfolding finalize_or_reconcile
    after_preparing-Course (err e) w bad = unprepared e bad refl
    after_preparing-Course (ok u) w good =
        elim (Bool-cases (util.add_finalizer release_address_finalizer claim.finalizers).1) [
          | inl added ↦
              let (answer, w1) = kube.patch_claim claim held w in
              rw added (writes_finalizer answer w1 refl refl)
          | inr same ↦
              let e = U.unchanged release_address_finalizer claim.finalizers same in
              let ((after, outcome), w1) =
                reconcile_claim_address kube util (handler_for claim) claim w in
              let (answer, w2) = kube.patch_claim claim after w1 in
              rw same (
                rw (same_claim _ e) (
                  runs after outcome answer w1 w2
                    (U.present release_address_finalizer claim.finalizers same) refl refl refl))
        ]

    -- A claim's handler is run only where the claim, as it was read from the cluster, has the finalizer
    -- that holds it until its address is released; a claim without it is patched to have it, and that is
    -- all that its reconcile does; where the patch cannot be prepared nothing is done.
    pub reconcile_and_patch_protected :
        (w : W) → Course w (reconcile_and_patch kube util handler_for claim w)
    unfolding reconcile_and_patch
    reconcile_and_patch_protected w = after_preparing-Course (kube.new_claim_helper claim) w refl
