-- ===== src/Base/Int.antt =====
-- Go's signed integers as ℤ over the native numbers; each place states the width that it relies on.
use cluster_api_ipam_provide.Base.Tests.{◌==◌}
use Prim.Native.Nat.{ℕ}
use mathlib.Core.Path.{◌≡◌}
use mathlib.Core.Logic.{◌↔◌}
use mathlib.Core.Bool.{Bool, true, false}
use native.Mathlib.Omega.{arith}

-- `negsuc n` is -(n + 1).
pub data ℤ : Type 0 where
  pos : ℕ → ℤ
  negsuc : ℕ → ℤ

infix 50 ◌==ℤ◌
abbrev pub ◌==ℤ◌ : ℤ → ℤ → Bool
pos a ==ℤ pos b = a == b
negsuc a ==ℤ negsuc b = a == b
pos a ==ℤ negsuc b = false
negsuc a ==ℤ pos b = false

pub ==ℤ_iff : (a b : ℤ) → ((a ==ℤ b) ≡ true) ↔ (a ≡ b)
==ℤ_iff a b = ground arith
