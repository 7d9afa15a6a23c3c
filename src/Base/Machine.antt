-- ===== src/Base/Machine.antt =====
-- 32-bit unsigned arithmetic, wrap-around written out.
use Prim.Native.Nat.{ℕ, ◌+◌, ◌-◌, ◌%◌, ◌^◌, ◌<◌}
use mathlib.Core.Path.{◌≡◌}
use native.Mathlib.Omega.{arith}

abbrev pub u32_mod : ℕ
u32_mod = 2 ^ 32

-- `a + b`, `a++`, `a--` and `a - b` on a `uint32_t`.
abbrev pub add32 : ℕ → ℕ → ℕ
add32 a b = (a + b) % u32_mod

abbrev pub inc32 : ℕ → ℕ
inc32 a = (a + 1) % u32_mod

abbrev pub dec32 : ℕ → ℕ
dec32 a = (a + u32_mod - 1) % u32_mod

abbrev pub sub32 : ℕ → ℕ → ℕ
sub32 a b = (a + u32_mod - b) % u32_mod

pub inc32-dec32 : (a : ℕ) → a < u32_mod → inc32 (dec32 a) ≡ a
inc32-dec32 a h = omega arith
