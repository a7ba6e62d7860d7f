-- ===== src/Tests/Listing.antt =====
-- An example of the addresses of a pool, over a cluster with one address.
use cluster_api_ipam_provide.Base.{
  ℕ, String, Bool, true, ◌&&◌, List, [], ◌∷◌, Option, none, some, Result, ok, ◌≡◌, ◌↔◌, inl, inr,
  refl, sym, ◌=ˢ◌, if◌then◌else◌, eq_iff, arith, Bool-cases,
}
use mathlib.Core.List.{Memᴰ}
use cluster_api_ipam_provide.Base.Errors.{Error}
use cluster_api_ipam_provide.Api.{IpAddress, netbox_ip_pool_kind}
use cluster_api_ipam_provide.Index.{ip_pool_ref_value, ip_address_by_combined_pool_ref}
use cluster_api_ipam_provide.Controller.Pools.{PoolAdapter, list_addresses_in_use}
use cluster_api_ipam_provide.Controller.Pools.Listed.{
  InNamespace, ListsByIndex, InScope, list_addresses_in_use_iff,
}
use cluster_api_ipam_provide.Tests.World.{kube, set_address}
use cluster_api_ipam_provide.Tests.Pools.{pools}

abbrev is_in : Option String → Bool
is_in none = true
is_in (some namespace) = set_address.namespace =ˢ namespace

-- the one address, where the index and the namespace are its own
abbrev matching : String → Option String → List IpAddress
matching key namespace =
    if key =ˢ ip_pool_ref_value set_address.pool_ref && is_in namespace
    then set_address ∷ []
    else []

abbrev one_address : PoolAdapter ℕ
one_address = record pools {
  kube = record kube { list_addresses = λ key namespace w. (ok (matching key namespace), w) };
}

abbrev Is : ℕ → IpAddress → Type 0
Is w a = a ≡ set_address

is_in_iff :
    (namespace : Option String) → (is_in namespace ≡ true) ↔ InNamespace namespace set_address
is_in_iff none = (λ e. tt, λ u. refl)
is_in_iff (some namespace) = eq_iff set_address.namespace namespace

one_key : {x y : String} → Memᴰ x (y ∷ []) → x ≡ y
one_key (Memᴰ.head e) = e
one_key (Memᴰ.tail m) = elim m [ ]

one_address_of : {a b : IpAddress} → Memᴰ a (b ∷ []) → a ≡ b
one_address_of (Memᴰ.head e) = e
one_address_of (Memᴰ.tail m) = elim m [ ]

matching_iff :
    (key : String) (namespace : Option String) (a : IpAddress)
    → Memᴰ a (matching key namespace) ↔ (
        (a ≡ set_address)
        × (Memᴰ key (ip_address_by_combined_pool_ref a) × InNamespace namespace a))
unfolding ip_address_by_combined_pool_ref
matching_iff key namespace a = elim (Bool-cases (key =ˢ ip_pool_ref_value set_address.pool_ref)) [
  | inr other ↦ (
    (λ m. elim (rw other at m) [ ]),
    (λ g.
        let (same, (k, n)) = g in
        let own = one_key (rw same at k) in
        let e = (eq_iff key (ip_pool_ref_value set_address.pool_ref)).1 own in absurd (cc)),
  )
  | inl own ↦
      let k = (eq_iff key (ip_pool_ref_value set_address.pool_ref)).0 own in
      elim (Bool-cases (is_in namespace)) [
        | inl e ↦ (
          (λ m.
              let same = one_address_of (rw e at (rw own at m)) in
              rw same (refl, (Memᴰ.head k, (is_in_iff namespace).0 e))),
          (λ g. rw own (rw e (Memᴰ.head g.0))),
        )
        | inr e ↦ (
          (λ m. elim (rw e at (rw own at m)) [ ]),
          (λ g.
              let (same, (x, n)) = g in
              let i = (is_in_iff namespace).1 (rw same at n) in absurd (cc)),
        )
      ]
]

one_address-Lists : ListsByIndex one_address.kube Is
one_address-Lists = record {
  listed = λ key namespace addresses w w' a h. rw (sym (of_ok h)) (matching_iff key namespace a);
}
  where
    of_ok :
        {x y : List IpAddress} {w v : ℕ}
        → ◌≡◌ {A = Result Error (List IpAddress) × ℕ} (ok x, w) (ok y, v)
        → x ≡ y
    of_ok h = cc

list_addresses_in_use_iff_example : Memᴰ set_address (set_address ∷ []) ↔ (
    (set_address ≡ set_address)
    × (((set_address.pool_ref.kind ≡ netbox_ip_pool_kind) × (set_address.pool_ref.name ≡ "pool"))
        × InScope "ns" set_address))
unfolding list_addresses_in_use ip_pool_ref_value
list_addresses_in_use_iff_example =
    list_addresses_in_use_iff one_address Is one_address-Lists "ns" netbox_ip_pool_kind "pool"
      (set_address ∷ []) 0 0 set_address (ground arith) (ground arith) refl
