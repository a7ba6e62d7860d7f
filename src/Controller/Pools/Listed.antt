-- ===== src/Controller/Pools/Listed.antt =====
-- Which addresses count as those of a pool.
use cluster_api_ipam_provide.Base.{
  String, true, false, List, [], ◌∷◌, Option, none, some, ok, ◌≡◌, ◌↔◌, ◌⊎◌, inl, inr, refl, sym,
  ap, ◌∙◌, if◌then◌else◌, Bool-cases,
}
use mathlib.Core.List.{Memᴰ}
use cluster_api_ipam_provide.Base.Text.{is_empty, cut}
use cluster_api_ipam_provide.Base.Text.Slash.{NoSlash, cut_slash}
use cluster_api_ipam_provide.Api.{IpAddress, IpPoolReference, group}
use cluster_api_ipam_provide.Cluster.{Kube}
use cluster_api_ipam_provide.Index.{ip_pool_ref_value, ip_address_by_combined_pool_ref}
use cluster_api_ipam_provide.Controller.Pools.{PoolAdapter, list_addresses_in_use}

-- `client.InNamespace`, where it is given
abbrev pub InNamespace : Option String → IpAddress → Type 0
InNamespace none a = Unit
InNamespace (some namespace) a = a.namespace ≡ namespace

-- What the Kubernetes client promises of a list by an index: `Stored w a`, the address is an object of
-- the cluster in the state `w`.
pub record ListsByIndex {W : Type 0} (kube : Kube W) (Stored : W → IpAddress → Type 0)
    : Type 0 where
  pub listed :
      (key : String) (namespace : Option String) (addresses : List IpAddress) (w w' : W)
      (a : IpAddress)
      → kube.list_addresses key namespace w ≡ (ok addresses, w')
      → Memᴰ a addresses
        ↔ (Stored w a × (Memᴰ key (ip_address_by_combined_pool_ref a) × InNamespace namespace a))

some_injective :
    {x y : String × String} → ◌≡◌ {A = Option (String × String)} (some x) (some y) → x ≡ y
some_injective e = cc

-- References of kinds without a slash have the same key only if their kinds and names are the same.
ip_pool_ref_value-injective :
    (r s : IpPoolReference)
    → NoSlash r.kind
    → NoSlash s.kind
    → ip_pool_ref_value r ≡ ip_pool_ref_value s
    → (r.kind ≡ s.kind) × (r.name ≡ s.name)
unfolding ip_pool_ref_value
ip_pool_ref_value-injective r s nr ns e =
    let same =
      some_injective
        (sym (cut_slash r.kind r.name nr) ∙ (ap (cut b'/') e ∙ cut_slash s.kind s.name ns)) in
    (ap (λ p. p.0) same, ap (λ p. p.1) same)

ip_pool_ref_value-same :
    (r s : IpPoolReference)
    → r.kind ≡ s.kind
    → r.name ≡ s.name
    → ip_pool_ref_value r ≡ ip_pool_ref_value s
unfolding ip_pool_ref_value
ip_pool_ref_value-same r s k n = rw (k, n) refl

one_key : {x y : String} → Memᴰ x (y ∷ []) → x ≡ y
one_key (Memᴰ.head e) = e
one_key (Memᴰ.tail m) = elim m [ ]

module _ (namespace : String) (a : IpAddress) where
  -- the addresses that a pool of this namespace looks at, "" for a pool that has none
  abbrev pub InScope : Type 0
  InScope = (is_empty namespace ≡ true) ⊎ (a.namespace ≡ namespace)

  scope_iff : InNamespace (if is_empty namespace then none else some namespace) a ↔ InScope
  scope_iff = elim (Bool-cases (is_empty namespace)) [
    | inl e ↦ (λ h. inl e, λ h. rw e tt)
    | inr e ↦ (λ h. inr (rw e at h), λ h. rw e (inside h e))
  ]
    where
      inside : InScope → is_empty namespace ≡ false → a.namespace ≡ namespace
      inside (inl x) y = absurd (cc)
      inside (inr x) y = x

module _ {W : Type 0} (P : PoolAdapter W) (Stored : W → IpAddress → Type 0)
    (L : ListsByIndex P.kube Stored) where
  -- The addresses that are counted for a pool are exactly those of the cluster whose reference has the
  -- pool's kind and name, and of them for a pool of a namespace only those in that namespace, where
  -- kinds have no slash.
  pub list_addresses_in_use_iff :
      (namespace kind name : String) (addresses : List IpAddress) (w w' : W) (a : IpAddress)
      → NoSlash kind
      → NoSlash a.pool_ref.kind
      → list_addresses_in_use P namespace kind name w ≡ (ok addresses, w')
      → Memᴰ a addresses ↔ (
          Stored w a
          × (((a.pool_ref.kind ≡ kind) × (a.pool_ref.name ≡ name)) × InScope namespace a))
  unfolding list_addresses_in_use ip_address_by_combined_pool_ref
  list_addresses_in_use_iff namespace kind name addresses w w' a nk na h =
      let ref : IpPoolReference = record { api_group = group; kind = kind; name = name } in
      let scope = if is_empty namespace then none else some namespace in
      let listed = L.listed (ip_pool_ref_value ref) scope addresses w w' a h in
      (
        (λ m.
            let (stored, (key, inside)) = listed.0 m in
            let (k, n) = ip_pool_ref_value-injective ref a.pool_ref nk na (one_key key) in
            (stored, ((sym k, sym n), (scope_iff namespace a).0 inside))),
        (λ g.
            let (stored, ((k, n), inside)) = g in
            listed.1 (
              stored,
              (
                Memᴰ.head (ip_pool_ref_value-same ref a.pool_ref (sym k) (sym n)),
                (scope_iff namespace a).1 inside,
              ),
            )),
      )
