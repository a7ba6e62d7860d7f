-- ===== src/Predicates/Watched.antt =====
-- Which events the predicates of pkg/predicates/references.go, and the one for clusters in
-- pkg/ipamutil/reconciler.go, let through.
use cluster_api_ipam_provide.Base.{
  Bool, true, false, not, ◌≡◌, ◌⊎◌, ◌↔◌, inl, inr, refl, ap, ◌∙◌, arith, eq_iff, ◌||◌,
}
use cluster_api_ipam_provide.Api.{
  IpPoolReference, IpAddress, IpAddressClaim, group, netbox_ip_pool_kind,
  global_netbox_ip_pool_kind, group_kind_netbox_ip_pool, group_kind_global_netbox_ip_pool,
}
use cluster_api_ipam_provide.Cluster.{LinkedCluster}
use cluster_api_ipam_provide.Predicates.{
  Object, claim, address, cluster, another, Event, create, delete, generic, update, references,
  watched_claim_event, watched_address_event, claim_references_pool_kind,
  address_references_pool_kind, watched_cluster_event, is_paused_cluster, is_running_cluster,
}

-- A reference to a pool of this provider, of either kind.
abbrev pub Ours : IpPoolReference → Type 0
Ours ref =
    (ref.api_group ≡ group)
    × ((ref.kind ≡ netbox_ip_pool_kind) ⊎ (ref.kind ≡ global_netbox_ip_pool_kind))

-- The object that an event is judged by: of an update, the new one.
abbrev pub subject : Event → Object
subject (create o) = o
subject (delete o) = o
subject (generic o) = o
subject (update old new) = new

-- The object is a claim, or an address, that refers to a pool of this provider.
abbrev pub OursClaim : Object → Type 0
OursClaim o = (c : IpAddressClaim) × (o ≡ claim c) × Ours c.pool_ref

abbrev pub OursAddress : Object → Type 0
OursAddress o = (a : IpAddress) × (o ≡ address a) × Ours a.pool_ref

module _ (ref : IpPoolReference) where
  -- The test of a reference, for both kinds.
  abbrev references_ours : Bool
  references_ours =
      references group_kind_netbox_ip_pool ref || references group_kind_global_netbox_ip_pool ref

  Ours-references : references_ours ≡ true → Ours ref
  Ours-references h = ground (
    arith,
    eq_iff ref.api_group group,
    eq_iff ref.kind netbox_ip_pool_kind,
    eq_iff ref.kind global_netbox_ip_pool_kind,
  )

  references-Ours : Ours ref → references_ours ≡ true
  references-Ours (g, inl k) =
      ground (arith, eq_iff ref.api_group group, eq_iff ref.kind netbox_ip_pool_kind)
  references-Ours (g, inr k) =
      ground (arith, eq_iff ref.api_group group, eq_iff ref.kind global_netbox_ip_pool_kind)

-- `predicate.Or` on an object, for claims and for addresses
abbrev claim_test : Object → Bool
claim_test o =
    claim_references_pool_kind group_kind_netbox_ip_pool o
    || claim_references_pool_kind group_kind_global_netbox_ip_pool o

abbrev address_test : Object → Bool
address_test o =
    address_references_pool_kind group_kind_netbox_ip_pool o
    || address_references_pool_kind group_kind_global_netbox_ip_pool o

claim_test_sound : (o : Object) → claim_test o ≡ true → OursClaim o
unfolding claim_references_pool_kind
claim_test_sound (claim c) h = (c, refl, Ours-references c.pool_ref h)
claim_test_sound (address a) h = absurd (cc)
claim_test_sound (cluster c) h = absurd (cc)
claim_test_sound another h = absurd (cc)

claim_test_complete : (o : Object) → OursClaim o → claim_test o ≡ true
unfolding claim_references_pool_kind
claim_test_complete o (c, same, ours) = ap claim_test same ∙ references-Ours c.pool_ref ours

address_test_sound : (o : Object) → address_test o ≡ true → OursAddress o
unfolding address_references_pool_kind
address_test_sound (address a) h = (a, refl, Ours-references a.pool_ref h)
address_test_sound (claim c) h = absurd (cc)
address_test_sound (cluster c) h = absurd (cc)
address_test_sound another h = absurd (cc)

address_test_complete : (o : Object) → OursAddress o → address_test o ≡ true
unfolding address_references_pool_kind
address_test_complete o (a, same, ours) = ap address_test same ∙ references-Ours a.pool_ref ours

watched_claim_event_test : (e : Event) → watched_claim_event e ≡ claim_test (subject e)
unfolding watched_claim_event
watched_claim_event_test (create o) = refl
watched_claim_event_test (delete o) = refl
watched_claim_event_test (generic o) = refl
watched_claim_event_test (update old new) = refl

watched_address_event_test : (e : Event) → watched_address_event e ≡ address_test (subject e)
unfolding watched_address_event
watched_address_event_test (create o) = refl
watched_address_event_test (delete o) = refl
watched_address_event_test (generic o) = refl
watched_address_event_test (update old new) = refl

-- The object is a cluster that is paused, or one that is not.
abbrev pub IsCluster : Bool → Object → Type 0
IsCluster paused o = (c : LinkedCluster) × (o ≡ cluster c) × (c.paused ≡ paused)

-- The event brings or takes away a cluster that is not paused, or ends a cluster's pause; or it is a
-- generic one.
abbrev pub Wakes : Event → Type 0
Wakes (create o) = IsCluster false o
Wakes (delete o) = IsCluster false o
Wakes (generic o) = Unit
Wakes (update old new) = IsCluster true old × IsCluster false new

is_paused_cluster_iff : (o : Object) → (is_paused_cluster o ≡ true) ↔ IsCluster true o
is_paused_cluster_iff (cluster c) =
    (λ h. (c, refl, h), λ (d, same, h). ap is_paused_cluster same ∙ h)
is_paused_cluster_iff (claim c) = (λ h. absurd (cc), λ (d, same, h). ap is_paused_cluster same ∙ h)
is_paused_cluster_iff (address a) =
    (λ h. absurd (cc), λ (d, same, h). ap is_paused_cluster same ∙ h)
is_paused_cluster_iff another = (λ h. absurd (cc), λ (d, same, h). ap is_paused_cluster same ∙ h)

is_running_cluster_sound : (o : Object) → is_running_cluster o ≡ true → IsCluster false o
is_running_cluster_sound (cluster c) h = (c, refl, ground arith)
is_running_cluster_sound (claim c) h = absurd (cc)
is_running_cluster_sound (address a) h = absurd (cc)
is_running_cluster_sound another h = absurd (cc)

is_running_cluster_complete : (o : Object) → IsCluster false o → is_running_cluster o ≡ true
is_running_cluster_complete o (c, same, h) = ap is_running_cluster same ∙ ap not h

watched_cluster_event_sound : (e : Event) → watched_cluster_event e ≡ true → Wakes e
unfolding watched_cluster_event
watched_cluster_event_sound (create o) h = is_running_cluster_sound o h
watched_cluster_event_sound (delete o) h = is_running_cluster_sound o h
watched_cluster_event_sound (generic o) h = tt
watched_cluster_event_sound (update old new) h =
    ((is_paused_cluster_iff old).0 (ground arith), is_running_cluster_sound new (ground arith))

watched_cluster_event_complete : (e : Event) → Wakes e → watched_cluster_event e ≡ true
unfolding watched_cluster_event
watched_cluster_event_complete (create o) h = is_running_cluster_complete o h
watched_cluster_event_complete (delete o) h = is_running_cluster_complete o h
watched_cluster_event_complete (generic o) h = refl
watched_cluster_event_complete (update old new) (p, r) =
    rw ((is_paused_cluster_iff old).1 p) (is_running_cluster_complete new r)

-- The predicates that the claim reconciler gives with each of its three watches, beside the filter of
-- them all for pauses and for a label, let through, of the events for claims,
-- exactly the ones whose object, the new one of an update, is a claim whose pool is of this provider's
-- group and of one of its two kinds; of those for addresses, exactly the ones whose object is an
-- address with such a pool; and of those for clusters, exactly the ones that bring or take away a
-- cluster that is not paused, or end a cluster's pause, and the generic ones.
pub watched_iff :
    (e : Event)
    → ((watched_claim_event e ≡ true) ↔ OursClaim (subject e))
      × ((watched_address_event e ≡ true) ↔ OursAddress (subject e))
      × ((watched_cluster_event e ≡ true) ↔ Wakes e)
watched_iff e = rw (watched_claim_event_test e) (
    rw (watched_address_event_test e) (
      (claim_test_sound (subject e), claim_test_complete (subject e)),
      (address_test_sound (subject e), address_test_complete (subject e)),
      (watched_cluster_event_sound e, watched_cluster_event_complete e),
    ))
