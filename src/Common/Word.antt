-- ===== src/Common/Word.antt =====
-- Machine words: the operand sizes of the CPU, bit tests, and what C++ does to `int` values.
use Prim.Native.Nat.{ℕ, ◌+◌, ◌-◌, ◌/◌, ◌%◌, ◌^◌}
use mathlib.Core.Bool.{Bool}
use newmacemu.Common.Tests.{leb, ◌==◌, if◌then◌else◌}
use newmacemu.Common.Int.{ℤ, pos, negsuc}

-- The suffixes _B, _W and _L of the source.
pub data Size : Type 0 where
  byte word long : Size

-- uint8_t, uint16_t, uint32_t.
abbrev pub bits : Size → ℕ
bits byte = 8
bits word = 16
bits long = 32

-- The number of the sign bit.
abbrev pub top : Size → ℕ
top byte = 7
top word = 15
top long = 31

-- The type in which a sum or difference of two operands is kept: uint16_t, uint32_t, uint64_t.
abbrev pub double : Size → ℕ
double byte = 16
double word = 32
double long = 64

abbrev pub modulus : Size → ℕ
modulus s = 2 ^ bits s

-- Conversion to the unsigned type of the size.
abbrev pub wrap : Size → ℕ → ℕ
wrap s v = v % modulus s

-- `x >> k & 1` as a truth value; also `x & 1 << k` in a condition.
abbrev pub bit : ℕ → ℕ → Bool
bit x k = x / 2 ^ k % 2 == 1

-- `~` on a 32-bit operand.
abbrev pub not32 : ℕ → ℕ
not32 x = 2 ^ 32 - 1 - x

-- Is the pattern negative as a signed value of the size?
abbrev pub is_negative : Size → ℕ → Bool
is_negative s v = leb (2 ^ top s) (wrap s v)

-- The signed value of a pattern.
abbrev pub signed : Size → ℕ → ℤ
signed s v = if leb (2 ^ top s) v then negsuc (modulus s - v - 1) else pos v

-- The range of the signed type.
abbrev pub fits : Size → ℤ → Bool
fits s (pos n) = leb (n + 1) (2 ^ top s)
fits s (negsuc n) = leb (n + 1) (2 ^ top s)

-- A pattern of the size as a 32-bit `int`.
abbrev pub sign_extend : Size → ℕ → ℕ
sign_extend s v = if is_negative s v then wrap s v + (2 ^ 32 - modulus s) else wrap s v

-- `>>` on a 32-bit `int`: the sign is copied in.
abbrev pub shift_right_int : ℕ → ℕ → ℕ
shift_right_int v c = if leb (2 ^ 31) v then 2 ^ 32 - 1 - (2 ^ 32 - 1 - v) / 2 ^ c else v / 2 ^ c
