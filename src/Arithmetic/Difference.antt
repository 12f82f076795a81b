-- ===== src/Arithmetic/Difference.antt =====
-- SUB_B, SUB_W and SUB_L compute the difference of their operands, and CMP_ sets the same flags.
use newmacemu.Common.{
  ℕ, ◌+◌, ◌-◌, ◌%◌, ◌^◌, ◌<◌, ◌≡◌, not, ◌&&◌, arith, ap, ◌∙◌, bit_and, bit_xor, bit, xor, ltb, leb,
  ◌==◌, Size, byte, word, long, top, modulus, signed, fits, refl,
}
use mathlib.Core.Path.{ap₂}
use newmacemu.Common.Int.{◌-ℤ◌}
use newmacemu.Common.Bits.{bit-bit_and, bit-bit_xor, bit-complement, bit_xor-lt}
use newmacemu.Ccr.{Ccr, Alu}
use newmacemu.Arithmetic.{sub, cmp, difference}

-- The overflow formula of the source, on the bits of its operands.
borrow_bit :
    (n k a b d : ℕ)
    → k < n
    → b < 2 ^ n
    → d < 2 ^ n
    → bit (bit_and (bit_xor a b) (2 ^ n - 1 - bit_xor b d)) k
      ≡ (xor (bit a k) (bit b k) && not (xor (bit b k) (bit d k)))
borrow_bit n k a b d h p q =
    bit-bit_and k (bit_xor a b) (2 ^ n - 1 - bit_xor b d)
    ∙ ap₂ ◌&&◌ (bit-bit_xor k a b)
        (bit-complement n k (bit_xor b d) h (bit_xor-lt n b d p q) ∙ ap not (bit-bit_xor k b d))

-- The value is the difference modulo the size; C is the borrow, X its copy; V says that the signed
-- difference is out of range; N is the sign and Z the zero test of the value.
pub record IsDifference (s : Size) (a b : ℕ) (r : Alu) : Type 0 where
  pub value : r.value ≡ (a + modulus s - b) % modulus s
  pub carry : r.ccr.c ≡ ltb a b
  pub extend : r.ccr.x ≡ r.ccr.c
  pub overflow : r.ccr.v ≡ not (fits s (signed s a -ℤ signed s b))
  pub negative : r.ccr.n ≡ leb (2 ^ top s) r.value
  pub zero : r.ccr.z ≡ (a == b)

-- For two operands of a size, SUB_ of that size gives the difference modulo the size, and sets C and X
-- to the borrow, V to signed overflow, N to the top bit of the value and Z to the operands' equality.
pub sub-IsDifference :
    (s : Size) (f : Ccr) (a b : ℕ)
    → a < modulus s
    → b < modulus s
    → IsDifference s a b (sub s f a b)
unfolding sub ◌-ℤ◌
sub-IsDifference byte f a b p q =
    ground
      (arith, borrow_bit 16 7 a b (difference byte a b) (omega arith) (omega arith) (omega arith))
sub-IsDifference word f a b p q =
    ground
      (arith, borrow_bit 32 15 a b (difference word a b) (omega arith) (omega arith) (omega arith))
sub-IsDifference long f a b p q =
    ground
      (arith, borrow_bit 64 31 a b (difference long a b) (omega arith) (omega arith) (omega arith))

-- A comparison is a subtraction that keeps X and drops the value.
pub cmp-sub : (s : Size) (f : Ccr) (a b : ℕ) → cmp s f a b ≡ record ((sub s f a b).ccr) { x = f.x }
unfolding cmp sub
cmp-sub s f a b = refl
