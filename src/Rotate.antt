-- ===== src/Rotate.antt =====
-- src/cpu/bits.cc, its third part: ROR_, ROL_, ROXR_ and ROXL_. `none` stands for a shift by a
-- negative count or by the whole width, which C++ leaves undefined.
pub mod Plain
pub mod Inverse
use newmacemu.Common.{
  ℕ, ◌+◌, ◌-◌, ◌*◌, ◌/◌, ◌%◌, ◌^◌, Bool, true, false, Option, none, some, bit_or, bit, to_num, ltb,
  ◌==◌, if◌then◌else◌, Size, byte, word, long, wrap, bits,
}
use newmacemu.Ccr.{Ccr, Alu, test}

-- The common end of ROR_ and ROL_: X is not written.
abbrev rotated : Size → Ccr → ℕ → Bool → Alu
rotated s f re carry = record { ccr = test s re (record f { v = false; c = carry }); value = re }

-- The common end of ROXR_ and ROXL_, and of ROL_L.
abbrev rotated_x : Size → Ccr → ℕ → Bool → Alu
rotated_x s f re carry = record {
  ccr = test s re (record f { x = carry; v = false; c = carry });
  value = re;
}

-- `v >> c | v << (w - c)` and `v << c | v >> (w - c)`, converted to the size.
abbrev pub right_bits : Size → ℕ → ℕ → ℕ
right_bits s v c = wrap s (bit_or (v / 2 ^ c) (v * 2 ^ (bits s - c)))

abbrev pub left_bits : Size → ℕ → ℕ → ℕ
left_bits s v c = wrap s (bit_or (v * 2 ^ c) (v / 2 ^ (bits s - c)))

-- ROR_B and ROR_W reduce only a count above the width.
abbrev ror_short : Size → Ccr → ℕ → ℕ → Option Alu
ror_short s f v c =
    let k : ℕ = if ltb (bits s) c then c % bits s else c in
    if k == 0 then none else some (rotated s f (right_bits s v k) (bit v (k - 1)))

abbrev ror_long : Ccr → ℕ → ℕ → Option Alu
ror_long f v c =
    let k : ℕ = c % 32 in
    if k == 0
    then some (rotated long f v (bit v 31))
    else some (rotated long f (right_bits long v k) (bit v (k - 1)))

-- ROR_B, ROR_W, ROR_L.
unfoldable pub ror : Size → Ccr → ℕ → ℕ → Option Alu
unfolding test
ror byte f v c = if c == 0 then some (rotated byte f v false) else ror_short byte f v c
ror word f v c = if c == 0 then some (rotated word f v false) else ror_short word f v c
ror long f v c = if c == 0 then some (rotated long f v false) else ror_long f v c

-- ROL_B and ROL_W: the operand is an `int` there, and a shift by the width gives zero.
abbrev rol_short : Size → Ccr → ℕ → ℕ → Option Alu
rol_short s f v c =
    let k : ℕ = c % bits s in some (rotated s f (left_bits s v k) (bit v (bits s - k)))

-- ROL_L also writes X.
abbrev rol_long : Ccr → ℕ → ℕ → Option Alu
rol_long f v c =
    let k : ℕ = c % 32 in
    if k == 0 then none else some (rotated_x long f (left_bits long v k) (bit v (32 - k)))

-- ROL_B, ROL_W, ROL_L.
unfoldable pub rol : Size → Ccr → ℕ → ℕ → Option Alu
unfolding test
rol byte f v c = if c == 0 then some (rotated byte f v false) else rol_short byte f v c
rol word f v c = if c == 0 then some (rotated word f v false) else rol_short word f v c
rol long f v c = if c == 0 then some (rotated long f v false) else rol_long f v c

-- `v >> c | old_x << (w - c) | v << (w + 1 - c)`, converted to the size.
abbrev pub right_bits_x : Size → ℕ → ℕ → Bool → ℕ
right_bits_x s v c old_x =
    wrap s
      (bit_or (bit_or (v / 2 ^ c) (to_num old_x * 2 ^ (bits s - c))) (v * 2 ^ (bits s + 1 - c)))

-- ROXR_B, ROXR_W, ROXR_L.
unfoldable pub roxr : Size → Ccr → ℕ → ℕ → Bool → Option Alu
unfolding test
roxr s f v c old_x =
    let k : ℕ = c % 64 % (bits s + 1) in
    if c == 0
    then some (rotated s f v old_x)
    else if k == 0
    then none
    else some (rotated_x s f (right_bits_x s v k old_x) (bit v (k - 1)))

-- `v << c | old_x << (c - 1) | v >> (w + 1 - c)`, converted to the size.
abbrev pub left_bits_x : Size → ℕ → ℕ → Bool → ℕ
left_bits_x s v c old_x =
    wrap s (bit_or (bit_or (v * 2 ^ c) (to_num old_x * 2 ^ (c - 1))) (v / 2 ^ (bits s + 1 - c)))

abbrev roxl_short : Size → Ccr → ℕ → ℕ → Bool → Option Alu
roxl_short s f v k old_x =
    if k == 0 then none else some (rotated_x s f (left_bits_x s v k old_x) (bit v (bits s - k)))

abbrev roxl_long : Ccr → ℕ → ℕ → Bool → Alu
roxl_long f v k old_x =
    if k == 0
    then rotated_x long f v old_x
    else if k == 32
    then rotated_x long f (bit_or (v / 2) (to_num old_x * 2 ^ 31)) (bit v 0)
    else rotated_x long f
        (wrap long (
          bit_or (bit_or (v * 2 ^ k) (to_num old_x * 2 ^ (k - 1)))
            (if k == 1 then 0 else v / 2 ^ (33 - k))))
        (bit v (32 - k))

-- ROXL_B, ROXL_W, ROXL_L.
unfoldable pub roxl : Size → Ccr → ℕ → ℕ → Bool → Option Alu
unfolding test
roxl byte f v c old_x =
    if c == 0 then some (rotated byte f v old_x) else roxl_short byte f v (c % 64 % 9) old_x
roxl word f v c old_x =
    if c == 0 then some (rotated word f v old_x) else roxl_short word f v (c % 64 % 17) old_x
roxl long f v c old_x =
    if c == 0 then some (rotated long f v old_x) else some (roxl_long f v (c % 64 % 33) old_x)
