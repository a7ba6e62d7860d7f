-- ===== src/Ipamutil/Reconcile/Progress.antt =====
-- That a claim which is being deleted gets away.
use cluster_api_ipam_provide.Base.{
  true, false, none, some, Result, ok, err, ◌≡◌, refl, inl, inr, Bool-cases, if_both,
}
use cluster_api_ipam_provide.Base.Errors.{Error, is_not_found}
use cluster_api_ipam_provide.Api.{Pool, IpAddressClaim, IpAddress}
use cluster_api_ipam_provide.Cluster.{Kube, Controllerutil, Outcome}
use cluster_api_ipam_provide.Ipamutil.Reconciler.{
  ClaimHandler, Fetched, done, hard_error, protect_address_finalizer,
}
use cluster_api_ipam_provide.Ipamutil.Reconcile.{
  dispatch, reconcile_with_pool, reconcile_without_pool, reconcile_claim_address,
}
use cluster_api_ipam_provide.Ipamutil.Releasing.{
  without_finalizer, delete_object, unprotected, unprotect_and_delete, after_read, delete_address,
  reconcile_delete,
}

module _ {W : Type 0} (kube : Kube W) (util : Controllerutil W) (claim : IpAddressClaim) where
  -- A cluster that answers: the claim's address object is read or is missing, and its patch and its
  -- deletion are accepted.
  pub record Answers : Type 0 where
    pub reads :
        (e : Error) (w w' : W)
        → kube.get_address claim.namespace claim.name w ≡ (err e, w')
        → is_not_found e ≡ true
    pub patches :
        (before after : IpAddress) (w : W) → hard_error (kube.patch_address before after w).0 ≡ none
    pub deletes : (a : IpAddress) (w : W) → hard_error (kube.delete_address a w).0 ≡ none

  -- What FetchPool gives for a deletion to go on: the pool is missing, or it is there and not paused.
  pub data Usable (f : Fetched) : Type 0 where
    missing : (e : Error) → f.error ≡ some e → is_not_found e ≡ true → Usable f
    present :
        (pool : Pool)
        → f.pool ≡ some pool
        → f.requeue ≡ none
        → f.error ≡ none
        → util.has_paused pool ≡ false
        → Usable f

  -- The claim is let go, with no error.
  pub record LetGo (r : (IpAddressClaim × Outcome) × W) : Type 0 where
    pub claim_after : r.0.0 ≡ without_finalizer kube util claim
    pub outcome : r.0.1 ≡ done

  module _ (C : Answers) where
    delete_object-LetGo : (a : IpAddress) (w : W) → LetGo (delete_object kube util claim a w)
    unfolding delete_object
    delete_object-LetGo a w = rw (C.deletes a w) (record { claim_after = refl; outcome = refl })

    unprotect_and_delete-LetGo :
        (a : IpAddress) (w : W) → LetGo (unprotect_and_delete kube util claim a w)
    unfolding unprotect_and_delete
    unprotect_and_delete-LetGo a w =
        elim (Bool-cases (util.remove_finalizer protect_address_finalizer a.finalizers).1) [
          | inl changed ↦ rw changed (
              rw (C.patches a (unprotected kube util a) w) (
                delete_object-LetGo (unprotected kube util a)
                  (kube.patch_address a (unprotected kube util a) w).1))
          | inr same ↦ rw same (delete_object-LetGo (unprotected kube util a) w)
        ]

    after_read-LetGo :
        (got : Result Error IpAddress) (w w' : W)
        → kube.get_address claim.namespace claim.name w ≡ (got, w')
        → LetGo (after_read kube util claim got w')
    after_read-LetGo (ok a) w w' e = unprotect_and_delete-LetGo a w'
    after_read-LetGo (err x) w w' e =
        rw (C.reads x w w' e) (record { claim_after = refl; outcome = refl })

    delete_address-LetGo : (w : W) → LetGo (delete_address kube util claim w)
    unfolding delete_address
    delete_address-LetGo w =
        let (got, w') = kube.get_address claim.namespace claim.name w in
        after_read-LetGo got w w' refl

    module _ (H : ClaimHandler W) where
      reconcile_delete-LetGo :
          (state : H.State) (w : W)
          → (H.release_address state w).0.error ≡ none
          → LetGo (reconcile_delete kube util H state claim w)
      unfolding reconcile_delete
      reconcile_delete-LetGo state w e = rw e (delete_address-LetGo (H.release_address state w).1)

      dispatch-LetGo :
          (state : H.State) (f : Fetched) (w : W)
          → claim.deleting ≡ true
          → Usable f
          → (H.release_address state w).0.error ≡ none
          → LetGo (dispatch kube util H state claim f w)
      unfolding reconcile_with_pool reconcile_without_pool
      dispatch-LetGo state f w d (missing e fe absent) released = rw fe (
          rw absent (
            if_both LetGo claim.deleting _ _ (λ t. reconcile_delete-LetGo state w released)
              (λ f. absurd (cc))))
      dispatch-LetGo state f w d (present pool fp fr fe live) released =
          rw (fp, fr, fe)
            (rw live (
              if_both LetGo claim.deleting _ _ (λ t. reconcile_delete-LetGo state w released)
                (λ f. absurd (cc))))

      -- A claim that is being deleted is let go by the reconcile in which its handler releases its
      -- address with no error, for a cluster that answers, and a pool that is missing or is not paused:
      -- the reconcile removes the finalizer, changes nothing else of the claim, and ends with no error.
      pub deletion_completes :
          (w : W)
          → claim.deleting ≡ true
          → Usable (H.fetch_pool H.start w).0
          → (H.release_address (H.fetch_pool H.start w).1 (H.fetch_pool H.start w).2).0.error ≡ none
          → LetGo (reconcile_claim_address kube util H claim w)
      unfolding reconcile_claim_address
      deletion_completes w d usable released =
          let (fetched, state, w') = H.fetch_pool H.start w in
          dispatch-LetGo state fetched w' d usable released
