-- ===== src/Prelude/Words.antt =====
-- Signed 16-bit integers: their bit patterns, and the integer that a bit pattern stands for.
use Prim.Native.Nat.{ℕ, ◌-◌, ◌%◌, ◌<◌}
use mathlib.Core.Path.{◌≡◌}
use native.Mathlib.Omega.{arith}
use lang_stream.Prelude.Tests.{ltb, if◌then◌else◌}
use lang_stream.Prelude.Int.{ℤ, pos, negsuc, pos_part, neg_part}

-- The low 16 bits of an integer in two's complement.
unfoldable pub word16 : ℤ → ℕ
word16 (pos n) = n % 65536
word16 (negsuc n) = 65535 - n % 65536

-- The int16 with the given bit pattern.
unfoldable pub int16 : ℕ → ℤ
int16 w = if ltb w 32768 then pos w else negsuc (65535 - w)

-- The values that an int16 takes.
abbrev pub IsInt16 : ℤ → Type 0
IsInt16 z = (pos_part z < 32768) × (neg_part z < 32769)

pub word16-lt : (z : ℤ) → word16 z < 65536
unfolding word16
word16-lt (pos n) = omega arith
word16-lt (negsuc n) = omega arith

pub int16-word16 : (z : ℤ) → IsInt16 z → int16 (word16 z) ≡ z
unfolding int16 word16
int16-word16 (pos n) h = ground arith
int16-word16 (negsuc n) h = ground arith

pub int16-IsInt16 : (w : ℕ) → w < 65536 → IsInt16 (int16 w)
unfolding int16
int16-IsInt16 w h = ground arith
