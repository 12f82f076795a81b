-- ===== src/Shift.antt =====
-- src/cpu/bits.cc, its second part: ASL_, ASR_, LSR_ and LSL_. Operands are bit patterns of their
-- size. The callers pass a count of at most 63.
pub mod Logical
pub mod Arithmetical
use newmacemu.Common.{
  ℕ, ◌-◌, ◌*◌, ◌/◌, ◌%◌, ◌^◌, Bool, true, false, not, ◌&&◌, bit, ltb, ◌==◌, if◌then◌else◌, Size,
  byte, word, long, wrap, top, sign_extend, shift_right_int,
}
use newmacemu.Ccr.{Ccr, Alu, test}

-- The early return of the shifts for a count of zero.
abbrev unshifted : Size → Ccr → ℕ → Alu
unshifted s f v = record { ccr = test s v (record f { c = false }); value = v }

-- The common end: the flags of the result, V, and C with its copy X.
abbrev shifted : Size → Ccr → ℕ → Bool → Bool → Alu
shifted s f re overflow carry = record {
  ccr = test s re (record f { x = carry; v = overflow; c = carry });
  value = re;
}

-- `if(c > 31) c = 31` of the byte and word functions.
abbrev pub clamp : ℕ → ℕ
clamp c = if ltb 31 c then 31 else c

-- `v << c` on a 32-bit operand.
abbrev pub shift_left_int : ℕ → ℕ → ℕ
shift_left_int v c = v * 2 ^ c % 2 ^ 32

-- LSR_B and LSR_W after the test for zero.
abbrev lsr_short : Size → Ccr → ℕ → ℕ → Alu
lsr_short s f v c = shifted s f (v / 2 ^ c) false (bit v (c - 1))

-- LSR_L after the test for zero.
abbrev lsr_long : Ccr → ℕ → ℕ → Alu
lsr_long f v c =
    if ltb 31 c
    then shifted long f 0 false (bit v (c - 1))
    else shifted long f (v / 2 ^ c) false (bit v (c - 1))

-- LSR_B, LSR_W, LSR_L.
unfoldable pub lsr : Size → Ccr → ℕ → ℕ → Alu
unfolding test
lsr byte f v c = if c == 0 then unshifted byte f v else lsr_short byte f v (clamp c)
lsr word f v c = if c == 0 then unshifted word f v else lsr_short word f v (clamp c)
lsr long f v c = if c == 0 then unshifted long f v else lsr_long f v c

-- LSL_B and LSL_W after the test for zero.
abbrev lsl_short : Size → Ccr → ℕ → ℕ → Alu
lsl_short s f v c =
    shifted s f (wrap s (shift_left_int v c)) false (bit (shift_left_int v (c - 1)) (top s))

-- LSL_L after the test for zero.
abbrev lsl_long : Ccr → ℕ → ℕ → Alu
lsl_long f v c =
    if ltb 31 c
    then shifted long f 0 false (if c == 32 then bit v 0 else false)
    else shifted long f (shift_left_int v c) false (bit (shift_left_int v (c - 1)) 31)

-- LSL_B, LSL_W, LSL_L.
unfoldable pub lsl : Size → Ccr → ℕ → ℕ → Alu
unfolding test
lsl byte f v c = if c == 0 then unshifted byte f v else lsl_short byte f v (clamp c)
lsl word f v c = if c == 0 then unshifted word f v else lsl_short word f v (clamp c)
lsl long f v c = if c == 0 then unshifted long f v else lsl_long f v c

-- The `so != (v >> 7)` of the ASL_ functions: `so` holds the bits that pass the sign.
abbrev sign_changes : Size → ℕ → ℕ → Bool
sign_changes s e so = not (so == shift_right_int e (top s))

-- ASL_B and ASL_W after the test for zero; e is the operand as an `int`.
abbrev asl_short : Size → Ccr → ℕ → ℕ → Alu
asl_short s f e c =
    let so : ℕ = if ltb (top s) c then e else shift_right_int e (top s - c) in
    shifted s f (wrap s (shift_left_int e c)) (sign_changes s e so)
      (bit (shift_left_int e (c - 1)) (top s))

-- ASL_L after the test for zero.
abbrev asl_long : Ccr → ℕ → ℕ → Alu
asl_long f v c =
    if ltb 31 c
    then shifted long f 0 (sign_changes long v v) (if c == 32 then bit v 0 else false)
    else shifted long f (shift_left_int v c) (sign_changes long v (shift_right_int v (31 - c)))
        (bit (shift_left_int v (c - 1)) 31)

-- ASL_B, ASL_W, ASL_L.
unfoldable pub asl : Size → Ccr → ℕ → ℕ → Alu
unfolding test
asl byte f v c =
    if c == 0 then unshifted byte f v else asl_short byte f (sign_extend byte v) (clamp c)
asl word f v c =
    if c == 0 then unshifted word f v else asl_short word f (sign_extend word v) (clamp c)
asl long f v c = if c == 0 then unshifted long f v else asl_long f v c

-- ASR_B and ASR_W after the test for zero; e is the operand as an `int`.
abbrev asr_short : Size → Ccr → ℕ → ℕ → Alu
asr_short s f e c =
    shifted s f (wrap s (shift_right_int e c)) false (bit (shift_right_int e (c - 1)) 0)

-- ASR_L after the test for zero.
abbrev asr_long : Ccr → ℕ → ℕ → Alu
asr_long f v c =
    if ltb c 32
    then shifted long f (shift_right_int v c) false (bit (shift_right_int v (c - 1)) 0)
    else shifted long f (shift_right_int (shift_right_int v 31) 1) false
        (bit (shift_right_int v 31) 0)

-- ASR_B, ASR_W, ASR_L.
unfoldable pub asr : Size → Ccr → ℕ → ℕ → Alu
unfolding test
asr byte f v c =
    if c == 0 then unshifted byte f v else asr_short byte f (sign_extend byte v) (clamp c)
asr word f v c =
    if c == 0 then unshifted word f v else asr_short word f (sign_extend word v) (clamp c)
asr long f v c = if c == 0 then unshifted long f v else asr_long f v c
