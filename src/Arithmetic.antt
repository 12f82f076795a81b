-- ===== src/Arithmetic.antt =====
-- src/cpu/arithmetic.cc: sums, differences and comparisons, with the condition codes that they set.
-- One definition stands for the functions of the three sizes, which differ only in the widths.
pub mod Sum
pub mod Difference
pub mod Extended
use newmacemu.Common.{
  ℕ, ◌+◌, ◌-◌, ◌%◌, ◌^◌, ◌≡◌, Bool, false, ◌&&◌, bit_and, bit_xor, to_num, bit, not32, ◌==◌,
  if◌then◌else◌, Size, wrap, bits, top, double, modulus,
}
use newmacemu.Ccr.{Ccr, Alu, test}

-- ADD_B, ADD_W, ADD_L.
unfoldable pub add : Size → Ccr → ℕ → ℕ → Alu
unfolding test
add s f a b =
    let sum : ℕ = (a + b) % 2 ^ double s in
    let overflow = bit (bit_and (not32 (bit_xor a b)) (bit_xor a sum)) (top s) in
    record {
      ccr = test s sum (record f { x = bit sum (bits s); c = bit sum (bits s); v = overflow });
      value = wrap s sum;
    }

-- The difference of two operands in the wider unsigned type.
abbrev pub difference : Size → ℕ → ℕ → ℕ
difference s a b = (a + 2 ^ double s - b) % 2 ^ double s

-- `((a ^ b) & ~(b ^ c)) & 0x80`; `~` is taken in the type of c, and only the top bit is kept.
abbrev pub borrow_overflow : Size → ℕ → ℕ → ℕ → Bool
borrow_overflow s a b d = bit (bit_and (bit_xor a b) (2 ^ double s - 1 - bit_xor b d)) (top s)

-- SUB_B, SUB_W, SUB_L.
unfoldable pub sub : Size → Ccr → ℕ → ℕ → Alu
unfolding test
sub s f a b =
    let d : ℕ = difference s a b in
    record {
      ccr =
          test s d
            (record f { x = bit d (bits s); c = bit d (bits s); v = borrow_overflow s a b d });
      value = wrap s d;
    }

-- CMP_B, CMP_W, CMP_L.
unfoldable pub cmp : Size → Ccr → ℕ → ℕ → Ccr
unfolding test
cmp s f a b =
    let d : ℕ = difference s a b in
    test s d (record f { c = bit d (bits s); v = borrow_overflow s a b d })

-- The last lines of the ADDX_ and SUBX_ functions: a zero result leaves Z as it was.
abbrev keep_zero : Bool → Alu → Alu
keep_zero old r = record r { ccr = record (r.ccr) { z = if r.value == 0 then old else false } }

-- ADDX_B, ADDX_W, ADDX_L: `b + old_x` is passed on as an operand of the size.
unfoldable pub addx : Size → Ccr → ℕ → ℕ → Bool → Alu
addx s f a b old_x = keep_zero f.z (add s f a (wrap s (b + to_num old_x)))

-- SUBX_B, SUBX_W, SUBX_L.
unfoldable pub subx : Size → Ccr → ℕ → ℕ → Bool → Alu
subx s f a b old_x = keep_zero f.z (sub s f a (wrap s (b + to_num old_x)))

-- NEG_B, NEG_W, NEG_L.
unfoldable pub neg : Size → Ccr → ℕ → Alu
neg s f v = sub s f 0 v

-- NEGX_B, NEGX_W, NEGX_L.
unfoldable pub negx : Size → Ccr → ℕ → Bool → Alu
negx s f v old_x = sub s f 0 (wrap s (v + to_num old_x))
