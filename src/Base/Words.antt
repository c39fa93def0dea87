-- ===== src/Base/Words.antt =====
-- u64 arithmetic as a release build does it: sums and differences wrap at 2 ^ 64.
use Prim.Native.Nat.{ℕ, ◌+◌, ◌-◌, ◌%◌, ◌^◌, ◌≤◌, ◌<◌}
use mathlib.Core.Path.{◌≡◌}
use native.Mathlib.Omega.{arith}

abbrev pub u64_mod : ℕ
u64_mod = 2 ^ 64

unfoldable pub add64 : ℕ → ℕ → ℕ
add64 a b = (a + b) % u64_mod

-- `a - b`; `-` on ℕ stops at 0, so the modulus is added first.
unfoldable pub sub64 : ℕ → ℕ → ℕ
sub64 a b = (a + u64_mod - b) % u64_mod

pub add64_of_lt : (a b : ℕ) → a + b < u64_mod → add64 a b ≡ a + b
unfolding add64
add64_of_lt a b h = omega arith

pub add64-le : (a b : ℕ) → add64 a b ≤ a + b
unfolding add64
add64-le a b = omega arith

pub add64-lt : (a b : ℕ) → add64 a b < u64_mod
unfolding add64
add64-lt a b = omega arith

pub sub64_of_le : (a b : ℕ) → b ≤ a → a < u64_mod → sub64 a b ≡ a - b
unfolding sub64
sub64_of_le a b h k = omega arith
