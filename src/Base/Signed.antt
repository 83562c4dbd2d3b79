-- ===== src/Base/Signed.antt =====
-- Signed C integers: `int`, `long` and `ssize_t` values as the integers that they stand for.
use Prim.Native.Nat.{ℕ, zero, suc, ◌-◌, ◌^◌}
use mathlib.Core.Bool.{Bool, true, false}
use linux_device_drivers.Base.Tests.{ltb, if◌then◌else◌, ◌==◌}

-- `negsuc n` is -(n + 1).
pub data ℤ : Type 0 where
  pos : ℕ → ℤ
  negsuc : ℕ → ℤ

-- The number -n.
abbrev pub neg : ℕ → ℤ
neg zero = pos 0
neg (suc n) = negsuc n

-- `z < 0`
abbrev pub is_neg : ℤ → Bool
is_neg (pos _) = false
is_neg (negsuc _) = true

-- A status: the number itself if it is negative, else 0.
abbrev pub error_of : ℤ → ℤ
error_of z = if is_neg z then z else pos 0

-- `z != 0`
abbrev pub is_nonzero : ℤ → Bool
is_nonzero (pos zero) = false
is_nonzero (pos (suc _)) = true
is_nonzero (negsuc _) = true

-- `z == n`, for a literal n that is not negative.
abbrev pub is_pos_eq : ℤ → ℕ → Bool
is_pos_eq (pos m) n = m == n
is_pos_eq (negsuc _) n = false

-- A `size_t` returned as an `ssize_t` of 64 bits.
abbrev pub ssize : ℕ → ℤ
ssize n = if ltb n (2 ^ 63) then pos n else negsuc (2 ^ 64 - n - 1)

-- `z == -1`
abbrev pub is_minus_one : ℤ → Bool
is_minus_one (pos _) = false
is_minus_one (negsuc n) = n == 0

abbrev pub pos_part : ℤ → ℕ
pos_part (pos n) = n
pos_part (negsuc _) = 0
