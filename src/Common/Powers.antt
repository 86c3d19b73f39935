-- ===== src/Common/Powers.antt =====
-- Powers of two.
use Prim.Native.Nat.{ℕ, zero, suc, ◌^◌, ◌≤◌}
use native.Mathlib.Nat.{pow-suc}
use native.Mathlib.Omega.{arith}

pub power_pos : (a : ℕ) → 1 ≤ 2 ^ a
power_pos zero = omega arith
power_pos (suc a) = omega (arith, pow-suc 2 a, power_pos a)
