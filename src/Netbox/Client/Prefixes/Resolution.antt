-- ===== src/Netbox/Client/Prefixes/Resolution.antt =====
-- Which prefixes the references of a pool stand for, and whose details are kept.
use cluster_api_ipam_provide.Base.{ℕ, false, List, [], ◌∷◌, none, some, ok, ◌≡◌, Effect}
use cluster_api_ipam_provide.Base.Text.{is_empty}
use cluster_api_ipam_provide.Base.Errors.{Error}
use cluster_api_ipam_provide.Base.Int.{ℤ}
use cluster_api_ipam_provide.Api.{NetBoxPrefixReference}
use cluster_api_ipam_provide.Netbox.Wire.{Network, NetBoxPrefix}
use cluster_api_ipam_provide.Netbox.Client.{ApiClient, list_all}
use cluster_api_ipam_provide.Netbox.Client.Prefixes.{vrf_query}

module _ {W : Type 0} (N : Network W) (c : ApiClient) (fuel : ℕ) where
  -- the listing by which a CIDR is looked up
  abbrev pub matching : NetBoxPrefixReference → Effect W Error (List NetBoxPrefix)
  matching ref =
      list_all N c N.decode_prefixes fuel "/api/ipam/prefixes/"
        (("prefix", ref.cidr) ∷ vrf_query ref.vrf_id)

  -- The prefix that a reference stands for: the one with its ID, or else the only one with its CIDR,
  -- in its VRF if it names one.
  pub data StandsFor (ref : NetBoxPrefixReference) (id : ℤ) (w w' : W) : Type 0 where
    by_id : ref.id ≡ some id → w' ≡ w → StandsFor ref id w w'
    by_cidr :
        (p : NetBoxPrefix)
        → ref.id ≡ none
        → is_empty ref.cidr ≡ false
        → matching ref w ≡ (ok (p ∷ []), w')
        → p.id ≡ id
        → StandsFor ref id w w'

  -- The references, one after the other, each with the ID that it stands for.
  pub data Resolved (w' : W) : W → List NetBoxPrefixReference → List ℤ → Type 0 where
    nothing : (w : W) → w' ≡ w → Resolved w' w [] []
    next :
        (w w1 : W) (ref : NetBoxPrefixReference) (refs : List NetBoxPrefixReference) (id : ℤ)
        (ids : List ℤ)
        → StandsFor ref id w w1
        → Resolved w' w1 refs ids
        → Resolved w' w (ref ∷ refs) (id ∷ ids)
