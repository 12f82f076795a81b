-- ===== src/Arithmetic/Sum.antt =====
-- ADD_B, ADD_W and ADD_L compute the sum of their operands.
use newmacemu.Common.{
  ℕ, ◌+◌, ◌%◌, ◌^◌, ◌<◌, ◌≡◌, not, ◌&&◌, arith, ap, ◌∙◌, bit_and, bit_xor, bit, not32, xor, leb,
  ◌==◌, Size, byte, word, long, top, double, modulus, signed, fits,
}
use mathlib.Core.Path.{ap₂}
use newmacemu.Common.Int.{◌+ℤ◌}
use newmacemu.Common.Bits.{bit-bit_and, bit-bit_xor, bit-not32, bit_xor-lt}
use newmacemu.Ccr.{Ccr, Alu}
use newmacemu.Arithmetic.{add}

-- The overflow formula of the source, on the bits of its operands.
overflow_bit :
    (k a b c : ℕ)
    → k < 32
    → a < 2 ^ 32
    → b < 2 ^ 32
    → bit (bit_and (not32 (bit_xor a b)) (bit_xor a c)) k
      ≡ (not (xor (bit a k) (bit b k)) && xor (bit a k) (bit c k))
overflow_bit k a b c h p q =
    bit-bit_and k (not32 (bit_xor a b)) (bit_xor a c)
    ∙ ap₂ ◌&&◌ (bit-not32 k (bit_xor a b) h (bit_xor-lt 32 a b p q) ∙ ap not (bit-bit_xor k a b))
        (bit-bit_xor k a c)

-- The value is the sum modulo the size; C is the carry out, X its copy; V says that the signed sum is
-- out of range; N is the sign and Z the zero test of the value.
pub record IsSum (s : Size) (a b : ℕ) (r : Alu) : Type 0 where
  pub value : r.value ≡ (a + b) % modulus s
  pub carry : r.ccr.c ≡ leb (modulus s) (a + b)
  pub extend : r.ccr.x ≡ r.ccr.c
  pub overflow : r.ccr.v ≡ not (fits s (signed s a +ℤ signed s b))
  pub negative : r.ccr.n ≡ leb (2 ^ top s) r.value
  pub zero : r.ccr.z ≡ (r.value == 0)

-- For two operands of a size, ADD_ of that size gives the sum modulo the size, and sets C and X to the
-- carry, V to signed overflow, N to the top bit and Z to the zero test of the value.
pub add-IsSum :
    (s : Size) (f : Ccr) (a b : ℕ) → a < modulus s → b < modulus s → IsSum s a b (add s f a b)
unfolding add ◌+ℤ◌
add-IsSum byte f a b p q = ground (
  arith,
  overflow_bit 7 a b ((a + b) % 2 ^ double byte) (omega arith) (omega arith) (omega arith),
)
add-IsSum word f a b p q = ground (
  arith,
  overflow_bit 15 a b ((a + b) % 2 ^ double word) (omega arith) (omega arith) (omega arith),
)
add-IsSum long f a b p q = ground (
  arith,
  overflow_bit 31 a b ((a + b) % 2 ^ double long) (omega arith) (omega arith) (omega arith),
)
