-- ===== src/Shift/Logical.antt =====
-- LSR_ and LSL_ divide and multiply by the power of two, at every count.
use newmacemu.Common.{
  ℕ, zero, suc, ◌+◌, ◌-◌, ◌*◌, ◌/◌, ◌%◌, ◌^◌, ◌≤◌, ◌<◌, ◌≡◌, sym, ap, ◌∙◌, Bool, false, arith, bit,
  leb, ◌==◌, Size, byte, word, long, bits, top, modulus,
}
use native.Mathlib.Nat.{pow-le-pow_right, div-eq_of_lt, mod-lt, one-le-pow}
use newmacemu.Common.Bits.{bit_above, bit_ext, bit-suc}
use newmacemu.Common.Select.{bit-mul, bit-mul_low, bit-mod, mul-half}
use newmacemu.Ccr.{Ccr, Alu, test}
use newmacemu.Shift.{lsr, lsl, shift_left_int}

-- The value is `re`, C and X are `out`, V is cleared, and N and Z are those of the value.
pub record IsShifted (s : Size) (re : ℕ) (out : Bool) (r : Alu) : Type 0 where
  pub value : r.value ≡ re
  pub carry : r.ccr.c ≡ out
  pub extend : r.ccr.x ≡ out
  pub overflow : r.ccr.v ≡ false
  pub negative : r.ccr.n ≡ leb (2 ^ top s) re
  pub zero : r.ccr.z ≡ (re == 0)

-- A number is gone once it is shifted by its width, either way.
pub div-pow_zero : (n c v : ℕ) → v < 2 ^ n → n ≤ c → v / 2 ^ c ≡ 0
div-pow_zero n c v h le =
    let grows : 2 ^ n ≤ 2 ^ c = pow-le-pow_right (omega arith) {j = c} le in
    div-eq_of_lt (omega arith)

pub mul-pow_zero : (n c v : ℕ) → n ≤ c → v * 2 ^ c % 2 ^ n ≡ 0
mul-pow_zero n c v le =
    bit_ext n (v * 2 ^ c % 2 ^ n) 0 (mod-lt _ (one-le-pow n 2 (omega arith)))
      (one-le-pow n 2 (omega arith))
      λ k small.
        bit-mod n k (v * 2 ^ c) small
        ∙ bit-mul_low c k v (omega arith)
        ∙ sym (bit_above 0 k 0 (omega arith) (omega arith))

-- The bit that the source takes from the value shifted by one place less.
bit_out : (c k v : ℕ) → 0 < c → bit (v * 2 ^ (c - 1)) k ≡ bit (v * 2 ^ c) (k + 1)
bit_out zero k v h = absurd (omega arith)
bit_out (suc c) k v h = sym (
    ap (bit (v * 2 ^ suc c)) (omega arith)
    ∙ bit-suc (v * 2 ^ suc c) k
    ∙ ap (λ t. bit t k) (mul-half c v)
    ∙ ap (λ t. bit (v * 2 ^ t) k) (omega arith))

pub bit_out_int :
    (c k v : ℕ) → k < 32 → 0 < c → bit (shift_left_int v (c - 1)) k ≡ bit (v * 2 ^ c) (k + 1)
bit_out_int c k v h pos = bit-mod 32 k (v * 2 ^ (c - 1)) h ∙ bit_out c k v pos

-- For an operand of a size and a count above zero, LSR_ divides by 2 ^ count, sets C and X to the last
-- bit that was shifted out, clears V, and sets N and Z by the value.
pub lsr-IsShifted :
    (s : Size) (f : Ccr) (v c : ℕ)
    → v < modulus s
    → 0 < c
    → IsShifted s (v / 2 ^ c) (bit v (c - 1)) (lsr s f v c)
unfolding lsr test
lsr-IsShifted byte f v c h pos =
    ground (arith, div-pow_zero 8 c v, div-pow_zero 8 31 v, bit_above 8 (c - 1) v, bit_above 8 30 v)
lsr-IsShifted word f v c h pos =
    ground
      (arith, div-pow_zero 16 c v, div-pow_zero 16 31 v, bit_above 16 (c - 1) v, bit_above 16 30 v)
lsr-IsShifted long f v c h pos = ground (arith, div-pow_zero 32 c v)

-- For an operand of a size and a count above zero, LSL_ multiplies by 2 ^ count modulo the size, sets C
-- and X to the last bit that was shifted out, clears V, and sets N and Z by the value.
pub lsl-IsShifted :
    (s : Size) (f : Ccr) (v c : ℕ)
    → v < modulus s
    → 0 < c
    → IsShifted s (v * 2 ^ c % modulus s) (bit (v * 2 ^ c) (bits s)) (lsl s f v c)
unfolding lsl test
lsl-IsShifted byte f v c h pos =
    ground (arith, mul-pow_zero 8 c v, bit-mul_low c 8 v, bit_out_int c 7 v)
lsl-IsShifted word f v c h pos =
    ground (arith, mul-pow_zero 16 c v, bit-mul_low c 16 v, bit_out_int c 15 v)
lsl-IsShifted long f v c h pos =
    ground (arith, mul-pow_zero 32 c v, bit-mul_low c 32 v, bit_out_int c 31 v, bit_out_all v c)
  where
    bit_out_all : (v c : ℕ) → c ≡ 32 → bit (v * 2 ^ c) 32 ≡ bit v 0
    bit_out_all v c e = ap (λ t. bit (v * 2 ^ t) 32) e ∙ bit-mul 32 0 v
