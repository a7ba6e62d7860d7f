-- ===== src/Ipamutil/Reconcile/Ready.antt =====
-- What a claim's Ready condition and address reference say of its reconcile.
use cluster_api_ipam_provide.Base.{true, Option, none, some, Result, ok, err, ◌≡◌, refl, is_some}
use cluster_api_ipam_provide.Base.Errors.{Error}
use cluster_api_ipam_provide.Api.{
  Pool, IpAddressClaim, IpAddress, Condition, ConditionStatus, condition_true, condition_false,
}
use cluster_api_ipam_provide.Cluster.{Kube, Controllerutil, Outcome, Requeue, Written}
use cluster_api_ipam_provide.Ipamutil.Address.{new_ip_address}
use cluster_api_ipam_provide.Ipamutil.Reconciler.{ClaimHandler, done, set_claim_ready}
use cluster_api_ipam_provide.Ipamutil.Assigning.{
  mutate, visible, after_waiting, await_visible, after_writing, ensure_address, after_ensuring,
  assign_address,
}

-- The Ready condition has the status `status`.
abbrev pub HasReady : ConditionStatus → IpAddressClaim → Type 0
HasReady status claim = (c : Condition) × (claim.ready ≡ some c) × (c.status ≡ status)

module _ {W : Type 0} (kube : Kube W) (util : Controllerutil W) (H : ClaimHandler W) where
  module _ (state : H.State) (claim : IpAddressClaim) (pool : Pool) (w : W) where
    -- what CreateOrPatch leaves of the claim's address object
    abbrev pub written : Written
    written =
        (util.create_or_patch (new_ip_address claim pool) (mutate kube util H state claim pool) w).0

    -- An assignment ends in one of two ways: ready and with no error, or neither.
    pub data Settled (r : (IpAddressClaim × Outcome) × W) : Type 0 where
      assigned :
          r.0.1 ≡ done
          → HasReady condition_true r.0.0
          → r.0.0.address_ref ≡ written.address.name
          → written.error ≡ none
          → Settled r
      refused :
          is_some r.0.1.error ≡ true
          → HasReady condition_false r.0.0
          → r.0.0.address_ref ≡ claim.address_ref
          → Settled r

    -- What `ensure_address` leaves of the claim, and what it returns.
    data Ensured (r : (IpAddressClaim × Result Outcome IpAddress) × W) : Type 0 where
      address : r.0.1 ≡ ok written.address → r.0.0 ≡ claim → written.error ≡ none → Ensured r
      error :
          (o : Outcome)
          → r.0.1 ≡ err o
          → is_some o.error ≡ true
          → HasReady condition_false r.0.0
          → r.0.0.address_ref ≡ claim.address_ref
          → Ensured r

    after_waiting-Ensured :
        (timed_out : Option Error) (v : W)
        → written.error ≡ none
        → Ensured (after_waiting kube util H claim written.address timed_out v)
    unfolding set_claim_ready
    after_waiting-Ensured none v e = address refl refl e
    after_waiting-Ensured (some x) v e = error _ refl refl (_, refl, refl) refl

    after_writing-Ensured :
        (requeue : Option Requeue) (e : Option Error) (v : W)
        → written.error ≡ e
        → Ensured (after_writing kube util H claim written.address requeue e v)
    unfolding set_claim_ready await_visible
    after_writing-Ensured requeue (some x) v e = error _ refl refl (_, refl, refl) refl
    after_writing-Ensured (some q) none v e = address refl refl e
    after_writing-Ensured none none v e =
        let (timed_out, v') = util.poll (visible kube util H written.address) v in
        after_waiting-Ensured timed_out v' e

    ensure_address-Ensured : Ensured (ensure_address kube util H state claim pool w)
    unfolding ensure_address
    ensure_address-Ensured =
        let (x, v) =
          util.create_or_patch (new_ip_address claim pool) (mutate kube util H state claim pool)
            w in
        after_writing-Ensured x.requeue x.error v refl

    after_ensuring_settled :
        (r : (IpAddressClaim × Result Outcome IpAddress) × W)
        → Ensured r
        → Settled (after_ensuring kube util H r.0.0 r.0.1 r.1)
    unfolding set_claim_ready
    after_ensuring_settled ((c, x), v) (address ok_address same e) =
        rw ok_address (assigned refl (_, refl, refl) refl e)
    after_ensuring_settled ((c, x), v) (error o is_err some_error unready same) =
        rw is_err (refused some_error unready same)

    -- A claim whose address is to be assigned is either left ready, with a reference to the address
    -- object, which was written with no error, and the reconcile then ends with no error; or it is
    -- left not ready, with the reference as it was, and the reconcile ends with an error.
    pub assign_address_settled : Settled (assign_address kube util H state claim pool w)
    unfolding assign_address
    assign_address_settled =
        after_ensuring_settled (ensure_address kube util H state claim pool w)
          ensure_address-Ensured

    -- A request for the queue that comes with no error is lost: the claim turns ready all the same,
    -- and the reconcile asks for nothing.
    pub dropped_requeue :
        (q : Requeue)
        → written.error ≡ none
        → written.requeue ≡ some q
        → ((assign_address kube util H state claim pool w).0.1 ≡ done)
          × HasReady condition_true (assign_address kube util H state claim pool w).0.0
    unfolding assign_address ensure_address set_claim_ready
    dropped_requeue q no_error asked = rw no_error (rw asked (refl, (_, refl, refl)))
