-- ===== src/Base/Words.antt =====
-- Go's uint64: a natural number below 2^64, with the wrap-around written out.
use Prim.Native.Nat.{ℕ, ◌+◌, ◌-◌, ◌%◌, ◌<◌, ◌≤◌}
use mathlib.Core.Path.{◌≡◌}
use native.Mathlib.Omega.{arith}

abbrev pub two64 : ℕ
two64 = 18446744073709551616

abbrev pub u64 : ℕ → ℕ
u64 n = n % two64

-- a - b on uint64.
abbrev pub sub64 : ℕ → ℕ → ℕ
sub64 a b = (a + two64 - b) % two64

pub u64_small : (n : ℕ) → n < two64 → u64 n ≡ n
u64_small n h = omega arith

pub sub64_small : (a b : ℕ) → a < two64 → b ≤ a → sub64 a b ≡ a - b
sub64_small a b h k = omega arith
