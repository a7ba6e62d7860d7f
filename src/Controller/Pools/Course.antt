-- ===== src/Controller/Pools/Course.antt =====
-- The ways that a reconcile of a pool goes, of either kind.
use cluster_api_ipam_provide.Base.{
  String, true, false, Option, none, some, Result, ok, err, ◌≡◌, ◌↔◌, refl, inl, inr, Bool-cases,
}
use cluster_api_ipam_provide.Base.Errors.{Error, is_not_found}
use cluster_api_ipam_provide.Api.{Pool, netbox_ip_pool_kind, global_netbox_ip_pool_kind}
use cluster_api_ipam_provide.Cluster.{Key, Outcome}
use cluster_api_ipam_provide.Controller.Pools.{PoolAdapter, reconcile_pool_status}
use cluster_api_ipam_provide.Controller.Pools.Reconciling.{
  aggregated, reconcile_and_patch, after_preparing, after_reading, reconcile_pool,
  reconcile_netbox_ip_pool, reconcile_global_netbox_ip_pool,
}

-- Nothing is reported exactly if neither part failed.
aggregated-none_iff :
    (reterr : Option Error) (patched : Result Error (Unit {0}))
    → (aggregated reterr patched ≡ none) ↔ ((reterr ≡ none) × (patched ≡ ok tt))
aggregated-none_iff reterr (ok tt) = (λ e. (e, refl), λ g. g.0)
aggregated-none_iff none (err x) = (λ e. absurd (cc), λ g. absurd (cc))
aggregated-none_iff (some y) (err x) = (λ e. absurd (cc), λ g. absurd (cc))

module _ {W : Type 0} (P : PoolAdapter W) where
  -- What a reconcile did and returned, for a pool that was read as `found` in the state `w1`.
  pub data Course (kind : String) (w1 : W) (found : Result Error Pool) (r : Outcome × W)
      : Type 0 where
    missing :
        (e : Error)
        → found ≡ err e
        → is_not_found e ≡ true
        → r.0.error ≡ none
        → r.1 ≡ w1
        → Course kind w1 found r
    unreadable :
        (e : Error)
        → found ≡ err e
        → is_not_found e ≡ false
        → r.0.error ≡ some e
        → r.1 ≡ w1
        → Course kind w1 found r
    unprepared :
        (pool : Pool) (e : Error)
        → found ≡ ok pool
        → P.kube.new_pool_helper pool ≡ err e
        → r.0.error ≡ some e
        → r.1 ≡ w1
        → Course kind w1 found r
    patched :
        (pool after : Pool) (failure : Option Error) (answer : Result Error (Unit {0})) (w2 : W)
        → found ≡ ok pool
        → reconcile_pool_status P kind pool w1 ≡ ((after, failure), w2)
        → P.kube.patch_pool pool after w2 ≡ (answer, r.1)
        → (r.0.error ≡ none) ↔ ((failure ≡ none) × (answer ≡ ok tt))
        → Course kind w1 found r

  reconcile_and_patch-Course :
      (kind : String) (pool : Pool) (w1 : W)
      → Course kind w1 (ok pool) (reconcile_and_patch P kind pool w1)
  unfolding reconcile_and_patch
  reconcile_and_patch-Course kind pool w1 =
      let ((after, failure), w2) = reconcile_pool_status P kind pool w1 in
      let (answer, w3) = P.kube.patch_pool pool after w2 in
      patched pool after failure answer w2 refl refl refl (aggregated-none_iff failure answer)

  after_preparing-Course :
      (kind : String) (pool : Pool) (prepared : Result Error (Unit {0})) (w1 : W)
      → P.kube.new_pool_helper pool ≡ prepared
      → Course kind w1 (ok pool) (after_preparing P kind pool prepared w1)
  after_preparing-Course kind pool (err e) w1 h = unprepared pool e refl h refl refl
  after_preparing-Course kind pool (ok u) w1 h = reconcile_and_patch-Course kind pool w1

  after_reading-Course :
      (kind : String) (found : Result Error Pool) (w1 : W)
      → Course kind w1 found (after_reading P kind found w1)
  after_reading-Course kind (err e) w1 = elim (Bool-cases (is_not_found e)) [
    | inl absent ↦ missing e refl absent (rw absent refl) refl
    | inr hard ↦ unreadable e refl hard (rw hard refl) refl
  ]
  after_reading-Course kind (ok pool) w1 =
      after_preparing-Course kind pool (P.kube.new_pool_helper pool) w1 refl

  -- A reconcile of a pool, of either kind, that cannot be read does nothing, and fails unless the pool
  -- is missing; one whose patch cannot be prepared does nothing and fails; and any other patches the
  -- pool to what the status reconcile leaves of it, also where that fails, and succeeds exactly if
  -- both do.
  pub reconcile_pool_course :
      (key : Key) (w : W)
      → Course netbox_ip_pool_kind
          (P.kube.get_netbox_ip_pool key.namespace key.name w).1
          (P.kube.get_netbox_ip_pool key.namespace key.name w).0
          (reconcile_netbox_ip_pool P key w)
        × Course global_netbox_ip_pool_kind
            (P.kube.get_global_netbox_ip_pool key.name w).1
            (P.kube.get_global_netbox_ip_pool key.name w).0
            (reconcile_global_netbox_ip_pool P key w)
  unfolding reconcile_netbox_ip_pool reconcile_global_netbox_ip_pool reconcile_pool
  reconcile_pool_course key w = (
    after_reading-Course netbox_ip_pool_kind (P.kube.get_netbox_ip_pool key.namespace key.name w).0
        (P.kube.get_netbox_ip_pool key.namespace key.name w).1,
    after_reading-Course global_netbox_ip_pool_kind (P.kube.get_global_netbox_ip_pool key.name w).0
        (P.kube.get_global_netbox_ip_pool key.name w).1,
  )
