-- ===== src/Base/Integers.antt =====
-- Go's signed integers and its 64-bit unsigned ones.
use Prim.Native.Nat.{ℕ, ◌%◌, ◌<◌}
use mathlib.Core.Path.{◌≡◌}
use native.Mathlib.Omega.{arith}

-- `negsuc n` is -(n + 1).
pub data ℤ : Type 0 where
  pos : ℕ → ℤ
  negsuc : ℕ → ℤ

-- 2 ^ 64
abbrev pub u64_mod : ℕ
u64_mod = 18446744073709551616

-- Unsigned arithmetic wraps.
abbrev pub u64 : ℕ → ℕ
u64 n = n % u64_mod

pub u64_small : (n : ℕ) → n < u64_mod → u64 n ≡ n
u64_small n h = omega arith
