-- ===== src/Common/Int.antt =====
-- C integers. An `int` is an integer of type ℤ, and a value of an unsigned type is its number.
use Prim.Native.Nat.{ℕ, ◌-◌, ◌*◌, ◌%◌, ◌^◌}
use mathlib.Core.Bool.{Bool, false}
use flatfs.Common.Tests.{ltb, ◌==◌, if◌then◌else◌}

-- `negsuc n` is -(n + 1).
pub data ℤ : Type 0 where
  pos : ℕ → ℤ
  negsuc : ℕ → ℤ

-- The constant -1.
abbrev pub minus_one : ℤ
minus_one = negsuc 0

abbrev pub is_minus_one : ℤ → Bool
is_minus_one (pos n) = false
is_minus_one (negsuc n) = n == 0

-- `i > n` at a constant n that is not negative.
abbrev pub exceeds : ℤ → ℕ → Bool
exceeds (pos i) n = ltb n i
exceeds (negsuc i) n = false

-- The largest `unsigned long`, to which -1 converts.
abbrev pub u64_max : ℕ
u64_max = 2 ^ 64 - 1

-- `(unsigned long) i`: a negative value wraps.
abbrev pub to_u64 : ℤ → ℕ
to_u64 (pos n) = n % 2 ^ 64
to_u64 (negsuc n) = 2 ^ 64 - 1 - n % 2 ^ 64

-- `(int) w`: the low 32 bits, read as two's complement.
abbrev pub to_int : ℕ → ℤ
to_int w = if ltb (w % 2 ^ 32) (2 ^ 31) then pos (w % 2 ^ 32) else negsuc (2 ^ 32 - 1 - w % 2 ^ 32)

-- `i << k` on `int`, as the compilers of the kernel compute it: the bits that leave are dropped.
abbrev pub shl_int : ℤ → ℕ → ℤ
shl_int i k = to_int (to_u64 i * 2 ^ k)
