-- ===== src/Ipamutil/Reconcile/Deletion.antt =====
-- When a claim that is being deleted loses the finalizer that holds it.
use cluster_api_ipam_provide.Base.{
  true, Option, none, some, Result, ok, err, ◌≡◌, ◌⊎◌, inl, inr, refl, ◌∙◌, Bool-cases, if_both,
}
use cluster_api_ipam_provide.Base.Errors.{Error, is_not_found}
use cluster_api_ipam_provide.Api.{Pool, IpAddressClaim, IpAddress}
use cluster_api_ipam_provide.Ipamutil.Address.{new_ip_address}
use cluster_api_ipam_provide.Cluster.{Kube, Controllerutil, Outcome, Requeue}
use cluster_api_ipam_provide.Ipamutil.Reconciler.{
  ClaimHandler, done, hard_error, set_claim_ready, protect_address_finalizer,
}
use cluster_api_ipam_provide.Ipamutil.Reconcile.{
  dispatch_to, reconcile_with_pool, reconcile_without_pool, reconcile_claim_address,
}
use cluster_api_ipam_provide.Ipamutil.Releasing.{
  after_deletion, delete_object, after_patch, unprotected, unprotect_and_delete, after_read,
  delete_address, after_release, reconcile_delete,
}
use cluster_api_ipam_provide.Ipamutil.Assigning.{
  await_visible, visible, after_waiting, ensure_address, after_writing, assign_address,
  after_ensuring, mutate,
}

module _ {W : Type 0} (kube : Kube W) (util : Controllerutil W) where
  -- The address object of a claim is gone: there was none, or its deletion was accepted.
  pub data Gone (claim : IpAddressClaim) (w : W) : Type 0 where
    missing :
        (e : Error) (w1 : W)
        → kube.get_address claim.namespace claim.name w ≡ (err e, w1)
        → is_not_found e ≡ true
        → Gone claim w
    accepted :
        (a : IpAddress) (w1 w2 : W)
        → kube.get_address claim.namespace claim.name w ≡ (ok a, w1)
        → hard_error (kube.delete_address (unprotected kube util a) w2).0 ≡ none
        → Gone claim w

  module _ (claim : IpAddressClaim) where
    -- Either the finalizers are as they were, or the reconcile is done and `G` holds.
    abbrev Kept : Type 0 → (IpAddressClaim × Outcome) × W → Type 0
    Kept G r = (r.0.0.finalizers ≡ claim.finalizers) ⊎ ((r.0.1 ≡ done) × G)

    after_deletion-Kept :
        (address : IpAddress) (o : Option Error) (w : W)
        → Kept (o ≡ none) (after_deletion kube util claim address o w)
    after_deletion-Kept address (some e) w = inl refl
    after_deletion-Kept address none w = inr (refl, refl)

    delete_object-Kept :
        (address : IpAddress) (w : W)
        → Kept
            (hard_error (kube.delete_address address w).0 ≡ none)
            (delete_object kube util claim address w)
    unfolding delete_object
    delete_object-Kept address w =
        let (deleted, w') = kube.delete_address address w in
        after_deletion-Kept address (hard_error deleted) w'

    module _ (a : IpAddress) where
      -- the deletion is accepted in some state
      abbrev Accepted : Type 0
      Accepted = (v : W) × (hard_error (kube.delete_address (unprotected kube util a) v).0 ≡ none)

      delete_unprotected-Kept :
          (w : W) → Kept Accepted (delete_object kube util claim (unprotected kube util a) w)
      delete_unprotected-Kept w = elim (delete_object-Kept (unprotected kube util a) w) [
        | inl same ↦ inl same
        | inr (d, e) ↦ inr (d, (w, e))
      ]

      after_patch-Kept :
          (o : Option Error) (w : W)
          → Kept Accepted (after_patch kube util claim (unprotected kube util a) o w)
      after_patch-Kept (some e) w = inl refl
      after_patch-Kept none w = delete_unprotected-Kept w

      unprotect_and_delete-Kept : (w : W) → Kept Accepted (unprotect_and_delete kube util claim a w)
      unfolding unprotect_and_delete
      unprotect_and_delete-Kept w =
          let (patched, w') = kube.patch_address a (unprotected kube util a) w in
          elim (Bool-cases (util.remove_finalizer protect_address_finalizer a.finalizers).1) [
            | inl changed ↦ rw changed (after_patch-Kept (hard_error patched) w')
            | inr same ↦ rw same (delete_unprotected-Kept w)
          ]

    after_read-Kept :
        (w w1 : W) (got : Result Error IpAddress)
        → kube.get_address claim.namespace claim.name w ≡ (got, w1)
        → Kept (Gone claim w) (after_read kube util claim got w1)
    after_read-Kept w w1 (ok a) e = elim (unprotect_and_delete-Kept a w1) [
      | inl same ↦ inl same
      | inr (d, (v, k)) ↦ inr (d, accepted a w1 v e k)
    ]
    after_read-Kept w w1 (err x) e = elim (Bool-cases (is_not_found x)) [
      | inl absent ↦ rw absent (inr (refl, missing x w1 e absent))
      | inr hard ↦ rw hard (inl refl)
    ]

    delete_address-Kept : (w : W) → Kept (Gone claim w) (delete_address kube util claim w)
    unfolding delete_address
    delete_address-Kept w =
        let (got, w1) = kube.get_address claim.namespace claim.name w in
        after_read-Kept w w1 got refl

    module _ (H : ClaimHandler W) (state : H.State) where
      -- The handler released the claim's address, and then the address object was gone.
      pub record Freed (w : W) : Type 0 where
        pub released : (H.release_address state w).0.error ≡ none
        pub gone : Gone claim (H.release_address state w).1

      after_release-Kept :
          (requeue : Option Requeue) (error : Option Error) (w : W)
          → (H.release_address state w).0.error ≡ error
          → Kept
              (Freed w)
              (after_release kube util claim requeue error (H.release_address state w).1)
      after_release-Kept requeue (some e) w h = inl refl
      after_release-Kept requeue none w h =
          elim (delete_address-Kept (H.release_address state w).1) [
            | inl same ↦ inl same
            | inr (d, g) ↦ inr (d, record { released = h; gone = g })
          ]

      reconcile_delete-Kept : (w : W) → Kept (Freed w) (reconcile_delete kube util H state claim w)
      unfolding reconcile_delete
      reconcile_delete-Kept w =
          let released = (H.release_address state w).0 in
          after_release-Kept released.requeue released.error w refl

      await_visible_kept :
          (address : IpAddress) (w : W)
          → (await_visible kube util H claim address w).0.0.finalizers ≡ claim.finalizers
      unfolding await_visible set_claim_ready
      await_visible_kept address w =
          elim (util.poll (visible kube util H address) w).0
            as (λ o.
              (after_waiting kube util H claim address o
                (util.poll (visible kube util H address) w).1).0.0.finalizers
              ≡ claim.finalizers) [ none ↦ refl | some e ↦ refl ]

      after_writing_kept :
          (address : IpAddress) (requeue : Option Requeue) (error : Option Error) (w : W)
          → (after_writing kube util H claim address requeue error w).0.0.finalizers
            ≡ claim.finalizers
      unfolding set_claim_ready
      after_writing_kept address requeue (some e) w = refl
      after_writing_kept address (some r) none w = refl
      after_writing_kept address none none w = await_visible_kept address w

      ensure_address_kept :
          (pool : Pool) (w : W)
          → (ensure_address kube util H state claim pool w).0.0.finalizers ≡ claim.finalizers
      unfolding ensure_address
      ensure_address_kept pool w =
          let (written, w') =
            util.create_or_patch (new_ip_address claim pool) (mutate kube util H state claim pool)
              w in
          after_writing_kept written.address written.requeue written.error w'

      after_ensuring_kept :
          (c : IpAddressClaim) (r : Result Outcome IpAddress) (w : W)
          → (after_ensuring kube util H c r w).0.0.finalizers ≡ c.finalizers
      unfolding set_claim_ready
      after_ensuring_kept c (ok address) w = refl
      after_ensuring_kept c (err outcome) w = refl

      assign_address_kept :
          (pool : Pool) (w : W)
          → (assign_address kube util H state claim pool w).0.0.finalizers ≡ claim.finalizers
      unfolding assign_address
      assign_address_kept pool w =
          let ((c, r), w') = ensure_address kube util H state claim pool w in
          after_ensuring_kept c r w' ∙ ensure_address_kept pool w

      -- A deletion that may let the claim go.
      abbrev Let : W → Type 0
      Let w = (claim.deleting ≡ true) × Freed w

      Kept-deleting :
          (r : (IpAddressClaim × Outcome) × W) (w : W)
          → claim.deleting ≡ true
          → Kept (Freed w) r
          → Kept (Let w) r
      Kept-deleting r w d (inl same) = inl same
      Kept-deleting r w d (inr (e, f)) = inr (e, (d, f))

      reconcile_with_pool-Kept :
          (pool : Pool) (w : W) → Kept (Let w) (reconcile_with_pool kube util H state claim pool w)
      unfolding reconcile_with_pool set_claim_ready
      reconcile_with_pool-Kept pool w =
          if_both (Kept (Let w)) (util.has_paused pool) _ _ (λ paused. inl refl)
            (λ live.
              if_both (Kept (Let w)) claim.deleting _ _
                (λ d.
                  Kept-deleting (reconcile_delete kube util H state claim w) w d
                    (reconcile_delete-Kept w))
                (λ d. inl (assign_address_kept pool w)))

      reconcile_without_pool-Kept :
          (requeue : Option Requeue) (e : Error) (w : W)
          → Kept (Let w) (reconcile_without_pool kube util H state claim requeue e w)
      unfolding reconcile_without_pool set_claim_ready
      reconcile_without_pool-Kept requeue e w =
          if_both (Kept (Let w)) (is_not_found e) _ _
            (λ absent.
              if_both (Kept (Let w)) claim.deleting _ _
                (λ d.
                  Kept-deleting (reconcile_delete kube util H state claim w) w d
                    (reconcile_delete-Kept w))
                (λ d. inl refl))
            (λ hard. inl refl)

      dispatch_to-Kept :
          (pool : Option Pool) (requeue : Option Requeue) (error : Option Error) (w : W)
          → Kept (Let w) (dispatch_to kube util H state claim pool requeue error w)
      dispatch_to-Kept pool requeue (some e) w = reconcile_without_pool-Kept requeue e w
      dispatch_to-Kept pool (some r) none w = inl refl
      dispatch_to-Kept none none none w = inl refl
      dispatch_to-Kept (some pool) none none w = reconcile_with_pool-Kept pool w

    -- A reconcile leaves the claim's finalizers as they are, unless the claim is being deleted, the
    -- handler has released its address with no error, and the address object was then missing or its
    -- deletion accepted; the reconcile then ends with no error.
    pub reconcile_claim_address_kept :
        (H : ClaimHandler W) (w : W)
        → ((reconcile_claim_address kube util H claim w).0.0.finalizers ≡ claim.finalizers)
          ⊎ (((reconcile_claim_address kube util H claim w).0.1 ≡ done)
              × ((claim.deleting ≡ true)
                  × Freed H (H.fetch_pool H.start w).1 (H.fetch_pool H.start w).2))
    unfolding reconcile_claim_address
    reconcile_claim_address_kept H w =
        let (fetched, state, w') = H.fetch_pool H.start w in
        dispatch_to-Kept H state fetched.pool fetched.requeue fetched.error w'
