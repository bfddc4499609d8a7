-- ===== src/Common/Words.antt =====
-- Go's `uint64` and the conversion to `int64`: arithmetic wraps.
use Prim.Native.Nat.{ℕ, ◌+◌, ◌-◌, ◌*◌, ◌%◌, ◌≤◌, ◌<◌}
use mathlib.Core.Path.{◌≡◌}
use native.Mathlib.Omega.{arith}

abbrev pub u64_mod : ℕ
u64_mod = 18446744073709551616

unfoldable pub add64 : ℕ → ℕ → ℕ
add64 a b = (a + b) % u64_mod

unfoldable pub sub64 : ℕ → ℕ → ℕ
sub64 a b = (a + u64_mod - b) % u64_mod

unfoldable pub mul64 : ℕ → ℕ → ℕ
mul64 a b = (a * b) % u64_mod

pub sub64-eq_of_le : (a b : ℕ) → b ≤ a → a < u64_mod → sub64 a b ≡ a - b
unfolding sub64
sub64-eq_of_le a b h k = omega arith

-- A difference below zero comes out near 2 ^ 64.
pub sub64_wraps : (a b : ℕ) → a < b → b < u64_mod → sub64 a b ≡ u64_mod - (b - a)
unfolding sub64
sub64_wraps a b h k = omega arith
