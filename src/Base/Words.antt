-- ===== src/Base/Words.antt =====
-- Numbers in the memory of a little-endian machine.
use Prim.Native.Nat.{ℕ, ◌+◌, ◌*◌, ◌/◌, ◌%◌, ◌^◌, ◌<◌}
use mathlib.Core.Path.{◌≡◌}
use mathlib.Core.List.{List, [], ◌∷◌}
use native.Mathlib.Omega.{arith}

-- Numbers of two and of four bytes in memory, the lowest byte first.
abbrev pub word16 : ℕ → List ℕ
word16 n = n % 256 ∷ n / 256 % 256 ∷ []

abbrev pub word32 : ℕ → List ℕ
word32 n = n % 256 ∷ n / 256 % 256 ∷ n / 65536 % 256 ∷ n / 16777216 % 256 ∷ []

-- The number that bytes stand for, the lowest byte first.
abbrev pub number_of : List ℕ → ℕ
number_of [] = 0
number_of (b ∷ bs) = b + 256 * number_of bs

-- A number of four bytes survives its way through memory.
pub number_of-word32 : (n : ℕ) → n < 2 ^ 32 → number_of (word32 n) ≡ n
number_of-word32 n h = omega arith
