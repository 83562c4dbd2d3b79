-- ===== src/Base/Text.antt =====
-- C strings: bytes up to a zero byte.
use Prim.Native.Nat.{ℕ, zero, suc, ◌<◌}
use Prim.Native.Char.{code}
use Prim.Native.String.{String}
use mathlib.Core.Path.{◌≡◌, refl}
use mathlib.Core.List.{List, [], ◌∷◌, ◌++◌}
use mathlib.Core.Option.{Option, none, some}
use native.Mathlib.Omega.{arith}
use linux_device_drivers.Base.Lists.{length, set, overlay, take}
use linux_device_drivers.Base.Tests.{◌==◌, if◌then◌else◌}

-- The bytes of an ASCII literal, and its bytes in memory.
abbrev pub codes : String → List ℕ
codes String.[] = []
codes (String.◌∷◌ c s) = code c ∷ codes s

abbrev pub literal : String → List ℕ
literal s = codes s ++ (0 ∷ [])

abbrev pub push : ℕ → Option (List ℕ) → Option (List ℕ)
push b none = none
push b (some t) = some (b ∷ t)

-- The text that `%s` prints of a buffer: `none` if no zero byte ends it.
unfoldable pub c_string : List ℕ → Option (List ℕ)
c_string [] = none
c_string (b ∷ bs) = let rest = c_string bs in if b == 0 then some [] else push b rest

-- The bytes before the first zero byte, or all of them.
unfoldable pub up_to_zero : List ℕ → List ℕ
up_to_zero [] = []
up_to_zero (b ∷ bs) = let rest = up_to_zero bs in if b == 0 then [] else b ∷ rest

-- Bytes written to the start of a larger buffer and ended by a zero byte read back as a text.
pub c_string-set-overlay :
    (bytes buffer : List ℕ)
    → length bytes < length buffer
    → c_string (set (overlay bytes buffer) (length bytes) 0) ≡ some (up_to_zero bytes)
unfolding c_string up_to_zero
c_string-set-overlay [] [] h = absurd (omega arith)
c_string-set-overlay [] (b ∷ bs) h = ground arith
c_string-set-overlay (x ∷ xs) [] h = absurd (omega arith)
c_string-set-overlay (x ∷ xs) (b ∷ bs) h = ground (arith, c_string-set-overlay xs bs)

-- A buffer with no zero byte has no text.
abbrev pub NoZero : List ℕ → Type 0
NoZero [] = Unit {0}
NoZero (b ∷ bs) = (0 < b) × NoZero bs

pub c_string_of_NoZero : (bytes : List ℕ) → NoZero bytes → c_string bytes ≡ none
unfolding c_string
c_string_of_NoZero [] h = refl
c_string_of_NoZero (b ∷ bs) h = ground (arith, c_string_of_NoZero bs)

pub c_string-NoZero : (bytes text : List ℕ) → c_string bytes ≡ some text → NoZero text
unfolding c_string
c_string-NoZero [] text h = cc
c_string-NoZero (b ∷ bs) [] h = tt
c_string-NoZero (b ∷ bs) (t ∷ ts) h = ground (arith, c_string-NoZero bs ts)

pub NoZero-take : (n : ℕ) (text : List ℕ) → NoZero text → NoZero (take n text)
NoZero-take zero text h = tt
NoZero-take (suc n) [] h = tt
NoZero-take (suc n) (b ∷ bs) h = (h.0, NoZero-take n bs h.1)

-- A text written with its zero byte to the start of a larger buffer reads back.
pub c_string-overlay :
    (text buffer : List ℕ)
    → NoZero text
    → length text < length buffer
    → c_string (overlay (text ++ (0 ∷ [])) buffer) ≡ some text
unfolding c_string
c_string-overlay [] [] z h = absurd (omega arith)
c_string-overlay [] (b ∷ bs) z h = refl
c_string-overlay (x ∷ xs) [] z h = absurd (omega arith)
c_string-overlay (x ∷ xs) (b ∷ bs) z h = ground (arith, c_string-overlay xs bs z.1)
