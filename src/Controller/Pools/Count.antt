-- ===== src/Controller/Pools/Count.antt =====
-- The count of addresses in a pool's status.
use cluster_api_ipam_provide.Base.{ℕ, ◌<◌, ◌^◌, ok, ◌≡◌, ◌↔◌, arith, leb, Bool-cases, inl, inr}
use cluster_api_ipam_provide.Base.Int.{ℤ, pos}
use cluster_api_ipam_provide.Netbox.Numbers.{cutoff}
use cluster_api_ipam_provide.Netbox.Numbers.RoundTrip.{parse_int32-format_nat}
use cluster_api_ipam_provide.Controller.Pools.{safe_allocated_count}

-- A count becomes an int32 exactly when it fits one, and then it is unchanged; a count that does not
-- fit is refused, rather than cut off.
pub safe_allocated_count_iff :
    (n : ℕ) (z : ℤ) → (safe_allocated_count n ≡ ok z) ↔ ((n < 2 ^ 31) × (z ≡ pos n))
unfolding safe_allocated_count
safe_allocated_count_iff n z = rw parse_int32-format_nat (elim (Bool-cases (leb cutoff n)) [
  | inl large ↦ rw large ((λ h. cc), (λ h. absurd (ground arith)))
  | inr fits ↦ rw fits ((λ h. (ground arith, cc)), (λ h. let (small, same) = h in cc))
])
