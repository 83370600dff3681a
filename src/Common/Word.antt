-- ===== src/Common/Word.antt =====
-- Machine integers: the C types `int`, `unsigned int`, `unsigned long` and `size_t` of the target,
-- where `int` has 32 bits and `long` has 64. A value of a signed type is the integer that it stands
-- for; an unsigned one is a number. Signed overflow wraps around, as the compiled code does.
use Prim.Native.Nat.{ℕ, ◌-◌, ◌%◌, ◌<◌}
use mathlib.Core.Path.{◌≡◌}
use native.Mathlib.Omega.{arith}
use pmf.Common.Tests.{if◌then◌else◌, ltb}
use pmf.Common.Int.{negsuc, pos, ℤ, ◌≤ℤ◌}

abbrev pub u32_mod : ℕ
u32_mod = 0x1_0000_0000

abbrev pub u64_mod : ℕ
u64_mod = 0x1_0000_0000_0000_0000

-- The conversion of an `int` or a `long` to an unsigned type.
unfoldable pub to_u32 : ℤ → ℕ
to_u32 (pos n) = n % u32_mod
to_u32 (negsuc n) = u32_mod - 1 - n % u32_mod

unfoldable pub to_u64 : ℤ → ℕ
to_u64 (pos n) = n % u64_mod
to_u64 (negsuc n) = u64_mod - 1 - n % u64_mod

-- The `int` with a given bit pattern.
unfoldable pub signed32 : ℕ → ℤ
signed32 w = if ltb w 0x8000_0000 then pos w else negsuc (u32_mod - w - 1)

unfoldable pub wrap_int : ℤ → ℤ
unfolding to_u32 signed32
wrap_int a = signed32 (to_u32 a)

abbrev pub int_max : ℕ
int_max = 0x7fff_ffff

pub record IsInt (a : ℤ) : Type 0 where
  pub above : negsuc int_max ≤ℤ a
  pub below : a ≤ℤ pos int_max

pub wrap_int-IsInt : (a : ℤ) → IsInt (wrap_int a)
unfolding wrap_int
wrap_int-IsInt (pos n) = ground arith
wrap_int-IsInt (negsuc n) = ground arith

pub wrap_int_lem : (a : ℤ) → IsInt a → wrap_int a ≡ a
unfolding wrap_int
wrap_int_lem (pos n) h = ground arith
wrap_int_lem (negsuc n) h = ground arith

pub to_u32-lt : (a : ℤ) → to_u32 a < u32_mod
unfolding to_u32
to_u32-lt (pos n) = omega arith
to_u32-lt (negsuc n) = omega arith
