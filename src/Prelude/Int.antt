-- ===== src/Prelude/Int.antt =====
-- Signed integers over the native numbers, under the library's names, and C's conversions between
-- `int`, `size_t` and `ssize_t` (64-bit Linux: `int` has 32 bits, the other two have 64).
use Prim.Native.Nat.{ℕ, zero, suc, ◌-◌, ◌%◌, ◌^◌, ◌<◌}
use mathlib.Core.Path.{◌≡◌}
use mathlib.Core.Bool.{Bool, true, false}
use native.Mathlib.Omega.{arith}
use venti.Prelude.Tests.{ltb, ◌==◌, if◌then◌else◌}

-- `negsuc n` is -(n + 1).
pub data ℤ : Type 0 where
  pos : ℕ → ℤ
  negsuc : ℕ → ℤ

-- -a; in the programs here `a` is never the least `int`.
abbrev pub neg : ℤ → ℤ
neg (pos zero) = pos 0
neg (pos (suc n)) = negsuc n
neg (negsuc n) = pos (suc n)

abbrev pub ltb_zero : ℤ → Bool
ltb_zero (pos n) = false
ltb_zero (negsuc n) = true

abbrev pub eqb : ℤ → ℤ → Bool
eqb (pos m) (pos n) = m == n
eqb (pos m) (negsuc n) = false
eqb (negsuc m) (pos n) = false
eqb (negsuc m) (negsuc n) = m == n

-- The conversion of a signed value to `size_t`.
unfoldable pub to_size : ℤ → ℕ
to_size (pos n) = n % 2 ^ 64
to_size (negsuc n) = 2 ^ 64 - 1 - n % 2 ^ 64

-- The conversion of an unsigned value to `int`.
unfoldable pub to_int : ℕ → ℤ
to_int n = if ltb (n % 2 ^ 32) (2 ^ 31) then pos (n % 2 ^ 32) else negsuc (2 ^ 32 - 1 - n % 2 ^ 32)

-- Through both conversions a value that fits `int` is itself.
pub to_int-to_size_pos : (n : ℕ) → n < 2 ^ 31 → to_int (to_size (pos n)) ≡ pos n
unfolding to_int to_size
to_int-to_size_pos n h = ground arith

pub to_int-to_size_negsuc : (n : ℕ) → n < 2 ^ 31 → to_int (to_size (negsuc n)) ≡ negsuc n
unfolding to_int to_size
to_int-to_size_negsuc n h = ground arith
