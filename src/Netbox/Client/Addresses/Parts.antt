-- ===== src/Netbox/Client/Addresses/Parts.antt =====
-- An address with its prefix length, as the cluster's address is printed for a search and as NetBox's
-- records are read.
use Prim.Native.String.{String, [], ◌∷◌}
use cluster_api_ipam_provide.Base.{false, [], ◌∷◌, some, ◌≡◌, refl, ◌∙◌, ap, ◌<>◌, inl, inr, arith}
use cluster_api_ipam_provide.Base.Text.{is_empty, trim_space, cut}
use cluster_api_ipam_provide.Base.Text.Slash.{NoSlash, cut_slash}
use cluster_api_ipam_provide.Base.Int.{ℤ}
use cluster_api_ipam_provide.Api.{IpAddress}
use cluster_api_ipam_provide.Netbox.Numbers.{parse_int32, format_int}
use cluster_api_ipam_provide.Netbox.Numbers.RoundTrip.{IsInt32, parse_int32-format_int}
use cluster_api_ipam_provide.Netbox.Wire.{NetBoxIpAddress}
use cluster_api_ipam_provide.Netbox.Client.Addresses.{map_ip_address, parts_of, number_or_zero}
use cluster_api_ipam_provide.Controller.Handler.{netbox_address_candidates}

number_or_zero-format_int : (z : ℤ) → IsInt32 z → number_or_zero (parse_int32 (format_int z)) ≡ z
number_or_zero-format_int z h = elim (parse_int32-format_int z) [
  | inl (small, e) ↦ rw e refl
  | inr (large, e) ↦ absurd (large h)
]

-- the cluster's address with a prefix length
abbrev pub with_length : String → ℤ → String
with_length address z = address <> "/" <> format_int z

-- For an address of the cluster that is not empty, has no slash and has a prefix length of 32 bits, the handler
-- searches NetBox for the address with its length, and then without; and a record of NetBox whose text is
-- the address with its length, with no space at the ends, is read as that address and that length.
pub map_ip_address-candidate :
    (k8s : IpAddress) (z : ℤ) (item : NetBoxIpAddress)
    → NoSlash k8s.address
    → is_empty k8s.address ≡ false
    → IsInt32 z
    → k8s.prefix ≡ some z
    → item.address ≡ with_length k8s.address z
    → trim_space item.address ≡ item.address
    → (netbox_address_candidates (some k8s) ≡ with_length k8s.address z ∷ k8s.address ∷ [])
      × ((map_ip_address item).address ≡ k8s.address)
      × ((map_ip_address item).prefix ≡ z)
unfolding map_ip_address netbox_address_candidates
map_ip_address-candidate k8s z item no_slash full small ez same trimmed =
    let host = cut_slash k8s.address (format_int z) no_slash in
    let split : cut b'/' item.address ≡ some (k8s.address, format_int z) =
      ap (cut b'/') same ∙ host in
    let parts = ap (λ t. parts_of t (cut b'/' t)) trimmed ∙ ap (parts_of item.address) split in
    (
      ground (arith, full, ez),
      ap (λ (q : String × ℤ). q.0) parts,
      ap (λ (q : String × ℤ). q.1) parts ∙ number_or_zero-format_int z small,
    )
