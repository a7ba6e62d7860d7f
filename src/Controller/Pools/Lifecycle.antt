-- ===== src/Controller/Pools/Lifecycle.antt =====
-- What becomes of a pool that is being deleted.
use cluster_api_ipam_provide.Base.{
  ℕ, ◌<◌, ◌^◌, String, true, List, Option, none, some, Result, ok, err, ◌≡◌, refl, arith, length,
  ◌∙◌, ap, Bool-cases, inl, inr, if_both, ◌==◌, >>=_ok, ok_injective, wrapping, lift,
}
use cluster_api_ipam_provide.Base.Errors.{Error}
use cluster_api_ipam_provide.Base.Int.{ℤ, pos}
use cluster_api_ipam_provide.Api.{Pool, IpAddress}
use cluster_api_ipam_provide.Controller.Pools.{
  PoolAdapter, pool_finalizer, set_condition_false, set_pool_ready_condition,
  ensure_cluster_name_label, needs_resolution, resolve_if_needed, resolve_pool_prefixes,
  guard_deletion, observed, counted, update_status, reconcile_pool_status, list_addresses_in_use,
  blocked_error, resolved_or_same, resolve_prefix_details,
}
use cluster_api_ipam_provide.Netbox.Config.{load_connection_config}
use cluster_api_ipam_provide.Netbox.Client.{sanitized_error}
use cluster_api_ipam_provide.Controller.Pools.Count.{safe_allocated_count_iff}

module _ {W : Type 0} (P : PoolAdapter W) (kind : String) (pool : Pool) where
  -- With the addresses read and counted, a reconcile is `update_status`.
  pub reconcile_pool_status-listed :
      (w w1 : W) (addresses : List IpAddress)
      → list_addresses_in_use P pool.namespace kind pool.name w ≡ (ok addresses, w1)
      → length addresses < 2 ^ 31
      → reconcile_pool_status P kind pool w
        ≡ update_status P pool.status.observed_generation
            (length addresses)
            (observed pool)
            (pos (length addresses))
            w1
  unfolding reconcile_pool_status
  reconcile_pool_status-listed w w1 addresses listed small = rw listed (
      rw ((safe_allocated_count_iff (length addresses) (pos (length addresses))).1 (small, refl))
        refl)

-- What a resolution leaves of a pool, whether it works or not.
pub record Kept (p q : Pool) : Type 0 where
  pub deleting : p.deleting ≡ q.deleting
  pub finalizers : p.finalizers ≡ q.finalizers
  pub generation : p.generation ≡ q.generation
  pub observed_generation : p.status.observed_generation ≡ q.status.observed_generation

Kept-refl : (p : Pool) → Kept p p
Kept-refl p = record {
  deleting = refl;
  finalizers = refl;
  generation = refl;
  observed_generation = refl;
}

pub Kept-label : (p : Pool) (name : String) → Kept (ensure_cluster_name_label p name) p
unfolding ensure_cluster_name_label
Kept-label p name = record {
  deleting = ground arith;
  finalizers = ground arith;
  generation = ground arith;
  observed_generation = ground arith;
}

pub status-label : (p : Pool) (name : String) → (ensure_cluster_name_label p name).status ≡ p.status
unfolding ensure_cluster_name_label
status-label p name = ground arith

pub Kept-ready : (p : Pool) (e : Option Error) → Kept (set_pool_ready_condition p e) p
unfolding set_pool_ready_condition
Kept-ready p none = record {
  deleting = refl;
  finalizers = refl;
  generation = refl;
  observed_generation = refl;
}
Kept-ready p (some e) = record {
  deleting = refl;
  finalizers = refl;
  generation = refl;
  observed_generation = refl;
}

module _ {W : Type 0} (P : PoolAdapter W) where
  Kept-resolve_pool_prefixes :
      (p q : Pool) (w w' : W) → resolve_pool_prefixes P p w ≡ (ok q, w') → Kept q p
  unfolding resolve_pool_prefixes
  Kept-resolve_pool_prefixes p q w w' h =
      let (cfg, w1, e1, h1) =
        >>=_ok
          (wrapping sanitized_error
            (load_connection_config P.kube.get_secret p.namespace p.spec.connection_secret_ref))
          _ w w' q h in
      let (client, w2, e2, h2) =
        >>=_ok
          (wrapping sanitized_error
            (lift (P.new_client (record cfg { request_timeout = P.request_timeout }))))
          _ w1 w' q h1 in
      let (ids, w3, e3, h3) =
        >>=_ok (wrapping sanitized_error (client.resolve_prefix_ids p.spec.prefixes)) _ w2 w' q
          h2 in
      let (details, w4, e4, h4) = >>=_ok (resolve_prefix_details P client p ids) _ w3 w' q h3 in
      rw (← (ok_injective h4).0) (record {
        deleting = refl;
        finalizers = refl;
        generation = refl;
        observed_generation = refl;
      })

  Kept-resolved_or_same :
      (p : Pool) (r : Result Error Pool) (w w' : W)
      → resolve_pool_prefixes P p w ≡ (r, w')
      → Kept (resolved_or_same p r).0 p
  Kept-resolved_or_same p (ok q) w w' h = Kept-resolve_pool_prefixes p q w w' h
  Kept-resolved_or_same p (err e) w w' h = Kept-refl p

  Kept-resolve_if_needed :
      (previous : ℤ) (p : Pool) (w : W) → Kept (resolve_if_needed P previous p w).0.0 p
  unfolding resolve_if_needed
  Kept-resolve_if_needed previous p w = elim (Bool-cases (needs_resolution previous p)) [
    | inl stale ↦ rw stale (
        Kept-resolved_or_same p (resolve_pool_prefixes P p w).0 w (resolve_pool_prefixes P p w).1
          refl)
    | inr warm ↦ rw warm (Kept-refl p)
  ]

  Kept-trans : {p q r : Pool} → Kept p q → Kept q r → Kept p r
  Kept-trans a b = record {
    deleting = a.deleting ∙ b.deleting;
    finalizers = a.finalizers ∙ b.finalizers;
    generation = a.generation ∙ b.generation;
    observed_generation = a.observed_generation ∙ b.observed_generation;
  }

  -- What a reconcile makes of a pool that is being deleted and has `n` addresses, when its finalizers
  -- were `before`.
  pub data Deletion (n : ℕ) (before : List String) (r : (Pool × Option Error) × W) : Type 0 where
    unused :
        n ≡ 0
        → r.0.1 ≡ none
        → r.0.0.finalizers ≡ (P.util.remove_finalizer pool_finalizer before).0
        → Deletion n before r
    blocked :
        0 < n → r.0.1 ≡ some (blocked_error n) → r.0.0.finalizers ≡ before → Deletion n before r

  guard_deletion_deleting :
      (n : ℕ) (e : Option Error) (p : Pool) (before : List String) (w : W)
      → p.deleting ≡ true
      → p.finalizers ≡ before
      → Deletion n before (guard_deletion P n e p w)
  unfolding guard_deletion set_condition_false
  guard_deletion_deleting n e p before w d f = rw d (
      if_both (Deletion n before) (n == 0) _ _
        (λ zero.
          unused (ground arith) refl (ap (λ l. (P.util.remove_finalizer pool_finalizer l).0) f))
        (λ more. blocked (ground arith) refl f))

  -- the pool that reaches the guard of the deletion
  Kept-updated :
      (previous : ℤ) (p : Pool) (z : ℤ) (name : String) (w : W)
      → Kept
          (ensure_cluster_name_label
            (set_pool_ready_condition
              (resolve_if_needed P previous (counted p z) w).0.0
              (resolve_if_needed P previous (counted p z) w).0.1)
            name)
          p
  Kept-updated previous p z name w =
      let ((q, e), w') = resolve_if_needed P previous (counted p z) w in
      let r = set_pool_ready_condition q e in
      let k : Kept (counted p z) p = record {
        deleting = refl;
        finalizers = refl;
        generation = refl;
        observed_generation = refl;
      } in
      Kept-trans (Kept-label r name) (
        Kept-trans (Kept-ready q e)
          (Kept-trans (Kept-resolve_if_needed previous (counted p z) w) k))

  -- A pool that is being deleted, and whose addresses can be listed and are fewer than 2 ^ 31, keeps its
  -- finalizer, and its reconcile fails, exactly while addresses are listed; when none is, the finalizer
  -- goes and the reconcile succeeds, whatever became of resolving its prefixes.
  pub reconcile_pool_status-deleting :
      (kind : String) (pool : Pool) (w w1 : W) (addresses : List IpAddress)
      → list_addresses_in_use P pool.namespace kind pool.name w ≡ (ok addresses, w1)
      → length addresses < 2 ^ 31
      → pool.deleting ≡ true
      → Deletion (length addresses) pool.finalizers (reconcile_pool_status P kind pool w)
  unfolding update_status
  reconcile_pool_status-deleting kind pool w w1 addresses listed small d =
      let n = length addresses in
      let previous = pool.status.observed_generation in
      let ((q, e), w2) = resolve_if_needed P previous (counted (observed pool) (pos n)) w1 in
      let kept = Kept-updated previous (observed pool) (pos n) pool.spec.cluster_name w1 in
      let final = ensure_cluster_name_label (set_pool_ready_condition q e) pool.spec.cluster_name in
      rw (reconcile_pool_status-listed P kind pool w w1 addresses listed small)
        (guard_deletion_deleting n e final pool.finalizers w2 (kept.deleting ∙ d) kept.finalizers)
