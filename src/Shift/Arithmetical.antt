-- ===== src/Shift/Arithmetical.antt =====
-- ASR_ is a division that rounds down.
use newmacemu.Common.{
  ℕ, ◌+◌, ◌-◌, ◌/◌, ◌^◌, ◌≤◌, ◌<◌, ◌≡◌, refl, sym, ap, ◌∙◌, Bool, true, false, arith, bit, ltb, leb,
  ◌==◌, if◌then◌else◌, Size, byte, word, long, wrap, bits, top, modulus, signed, sign_extend,
  shift_right_int, is_negative, Bool-cases, inl, inr,
}
use mathlib.Core.Path.{subst}
use native.Mathlib.Nat.{mod-eq_of_lt}
use newmacemu.Common.Int.{ℤ, pos, negsuc}
use newmacemu.Common.Bits.{bit-complement}
use newmacemu.Ccr.{Ccr, Alu, test}
use newmacemu.Shift.{asr, clamp, shifted, asr_long}
use newmacemu.Shift.Logical.{div-pow_zero}

-- Division by 2 ^ c, rounded towards minus infinity.
abbrev pub floor_shift : ℤ → ℕ → ℤ
floor_shift (pos n) c = pos (n / 2 ^ c)
floor_shift (negsuc n) c = negsuc (n / 2 ^ c)

-- The bit that leaves at the right end, with copies of the sign above the operand.
abbrev pub last_out : Size → ℕ → ℕ → Bool
last_out s v c = if leb c (bits s) then bit v (c - 1) else is_negative s v

pub record IsFloorShifted (s : Size) (v c : ℕ) (r : Alu) : Type 0 where
  pub value : signed s r.value ≡ floor_shift (signed s v) c
  pub in_range : r.value < modulus s
  pub carry : r.ccr.c ≡ last_out s v c
  pub extend : r.ccr.x ≡ last_out s v c
  pub overflow : r.ccr.v ≡ false
  pub negative : r.ccr.n ≡ leb (2 ^ top s) r.value
  pub zero : r.ccr.z ≡ (r.value == 0)

div-pow_le : (c v : ℕ) → v / 2 ^ c ≤ v
div-pow_le c v = omega arith

-- `>>` of a sign-extended operand; at a negative one it divides the complement.
extended_negative :
    (s : Size) (v c : ℕ)
    → v < modulus s
    → leb (2 ^ top s) v ≡ true
    → shift_right_int (sign_extend s v) c ≡ 2 ^ 32 - 1 - (modulus s - 1 - v) / 2 ^ c
extended_negative byte v c h neg =
    let e : 2 ^ 32 - 1 - (v + (2 ^ 32 - 256)) ≡ 255 - v = omega arith in
    ground (arith, ap (λ (t : ℕ). t / 2 ^ c) e)
extended_negative word v c h neg =
    let e : 2 ^ 32 - 1 - (v + (2 ^ 32 - 65536)) ≡ 65535 - v = omega arith in
    ground (arith, ap (λ (t : ℕ). t / 2 ^ c) e)
extended_negative long v c h neg = ground (arith)

extended_positive :
    (s : Size) (v c : ℕ)
    → v < modulus s
    → leb (2 ^ top s) v ≡ false
    → shift_right_int (sign_extend s v) c ≡ v / 2 ^ c
extended_positive byte v c h neg = ground arith
extended_positive word v c h neg = ground arith
extended_positive long v c h neg = ground arith

asr_value :
    (s : Size) (v c : ℕ)
    → v < modulus s
    → signed s (wrap s (shift_right_int (sign_extend s v) c)) ≡ floor_shift (signed s v) c
asr_value byte v c h = elim (Bool-cases (leb 128 v)) [
  | inl neg ↦ rw (extended_negative byte v c h neg) (ground (arith, div-pow_le c (255 - v)))
  | inr low ↦ rw (extended_positive byte v c h low) (ground (arith, div-pow_le c v))
]
asr_value word v c h = elim (Bool-cases (leb 32768 v)) [
  | inl neg ↦ rw (extended_negative word v c h neg) (ground (arith, div-pow_le c (65535 - v)))
  | inr low ↦ rw (extended_positive word v c h low) (ground (arith, div-pow_le c v))
]
asr_value long v c h = elim (Bool-cases (leb 2147483648 v)) [
  | inl neg ↦ rw (extended_negative long v c h neg) (ground (arith, div-pow_le c (2 ^ 32 - 1 - v)))
  | inr low ↦ rw (extended_positive long v c h low) (ground (arith, div-pow_le c v))
]

-- The bit of a sign-extended operand at place k.
asr_out :
    (s : Size) (v k : ℕ)
    → v < modulus s
    → bit (shift_right_int (sign_extend s v) k) 0
      ≡ (if ltb k (bits s) then bit v k else leb (2 ^ top s) v)
asr_out byte v k h = elim (Bool-cases (leb 128 v)) [
  | inl neg ↦
      ap (λ t. bit t 0) (extended_negative byte v k h neg)
      ∙ ground
          (arith, bit-complement 8 k (255 - v), div-pow_zero 8 k (255 - v), div-pow_le k (255 - v))
  | inr low ↦
      ap (λ t. bit t 0) (extended_positive byte v k h low) ∙ ground (arith, div-pow_zero 8 k v)
]
asr_out word v k h = elim (Bool-cases (leb 32768 v)) [
  | inl neg ↦
      ap (λ t. bit t 0) (extended_negative word v k h neg)
      ∙ ground (
        arith,
        bit-complement 16 k (65535 - v),
        div-pow_zero 16 k (65535 - v),
        div-pow_le k (65535 - v),
      )
  | inr low ↦
      ap (λ t. bit t 0) (extended_positive word v k h low) ∙ ground (arith, div-pow_zero 16 k v)
]
asr_out long v k h = elim (Bool-cases (leb 2147483648 v)) [
  | inl neg ↦
      ap (λ t. bit t 0) (extended_negative long v k h neg)
      ∙ ground (
        arith,
        bit-complement 32 k (4294967295 - v),
        div-pow_zero 32 k (4294967295 - v),
        div-pow_le k (4294967295 - v),
      )
  | inr low ↦
      ap (λ t. bit t 0) (extended_positive long v k h low) ∙ ground (arith, div-pow_zero 32 k v)
]

-- Past the width a count of 31 does as well as any other.
floor_shift-clamp :
    (s : Size) (v c : ℕ)
    → v < modulus s
    → floor_shift (signed s v) (clamp c) ≡ floor_shift (signed s v) c
floor_shift-clamp byte v c h = ground (
  arith,
  div-pow_zero 8 c v,
  div-pow_zero 8 31 v,
  div-pow_zero 8 c (256 - v - 1),
  div-pow_zero 8 31 (256 - v - 1),
)
floor_shift-clamp word v c h = ground (
  arith,
  div-pow_zero 16 c v,
  div-pow_zero 16 31 v,
  div-pow_zero 16 c (65536 - v - 1),
  div-pow_zero 16 31 (65536 - v - 1),
)
floor_shift-clamp long v c h = ground (
  arith,
  div-pow_zero 31 c v,
  div-pow_zero 31 31 v,
  div-pow_zero 31 c (2 ^ 32 - v - 1),
  div-pow_zero 31 31 (2 ^ 32 - v - 1),
)

last_out-clamp :
    (s : Size) (v c : ℕ)
    → v < modulus s
    → 0 < c
    → bits s < 31
    → (if ltb (clamp c - 1) (bits s) then bit v (clamp c - 1) else leb (2 ^ top s) v)
      ≡ last_out s v c
last_out-clamp byte v c h some_count short = ground arith
last_out-clamp word v c h some_count short = ground arith
last_out-clamp long v c h some_count short = absurd (omega arith)

count_test : (c : ℕ) → 0 < c → (c == 0) ≡ false
count_test c h = ground arith

sign_of_wrapped : (s : Size) (x : ℕ) → is_negative s (wrap s x) ≡ leb (2 ^ top s) (wrap s x)
sign_of_wrapped byte x = ground arith
sign_of_wrapped word x = ground arith
sign_of_wrapped long x = ground arith

zero_of_wrapped : (s : Size) (x : ℕ) → (wrap s (wrap s x) == 0) ≡ (wrap s x == 0)
zero_of_wrapped byte x = ground arith
zero_of_wrapped word x = ground arith
zero_of_wrapped long x = ground arith

wrap-lt : (s : Size) (x : ℕ) → wrap s x < modulus s
wrap-lt byte x = omega arith
wrap-lt word x = omega arith
wrap-lt long x = omega arith

-- The common end of the functions of the three sizes; e is what `>>` gives.
shifted-IsFloorShifted :
    (s : Size) (f : Ccr) (v c e : ℕ) (out : Bool)
    → signed s (wrap s e) ≡ floor_shift (signed s v) c
    → out ≡ last_out s v c
    → IsFloorShifted s v c (shifted s f (wrap s e) false out)
unfolding test
shifted-IsFloorShifted s f v c e out value carry = record {
  value = value;
  in_range = wrap-lt s e;
  carry = carry;
  extend = carry;
  overflow = refl;
  negative = sign_of_wrapped s e;
  zero = zero_of_wrapped s e;
}

sign_extend-long : (v : ℕ) → v < 2 ^ 32 → sign_extend long v ≡ v
sign_extend-long v h = ground arith

shift_right_int-lt : (v c : ℕ) → v < 2 ^ 32 → shift_right_int v c < 2 ^ 32
shift_right_int-lt v c h = ground (arith, div-pow_le c v)

-- The same with a 32-bit result, which needs no conversion.
long-IsFloorShifted :
    (f : Ccr) (v c e : ℕ) (out : Bool)
    → e < 2 ^ 32
    → signed long e ≡ floor_shift (signed long v) c
    → out ≡ last_out long v c
    → IsFloorShifted long v c (shifted long f e false out)
long-IsFloorShifted f v c e out small value carry =
    let whole : wrap long e ≡ e = mod-eq_of_lt small in
    subst (λ t. IsFloorShifted long v c (shifted long f t false out)) whole
      (shifted-IsFloorShifted long f v c e out (ap (signed long) whole ∙ value) carry)

asr_long_value :
    (v c : ℕ) → v < 2 ^ 32 → signed long (shift_right_int v c) ≡ floor_shift (signed long v) c
asr_long_value v c h =
    ap (signed long) (sym (mod-eq_of_lt (shift_right_int-lt v c h)))
    ∙ ap (λ t. signed long (wrap long (shift_right_int t c))) (sym (sign_extend-long v h))
    ∙ asr_value long v c h

asr_long_out :
    (v k : ℕ)
    → v < 2 ^ 32
    → bit (shift_right_int v k) 0 ≡ (if ltb k 32 then bit v k else leb (2 ^ 31) v)
asr_long_out v k h =
    ap (λ t. bit (shift_right_int t k) 0) (sym (sign_extend-long v h)) ∙ asr_out long v k h

-- From count 32 on the source shifts by 31 and by one more.
asr_long_far :
    (v c : ℕ)
    → v < 2 ^ 32
    → 31 < c
    → signed long (shift_right_int (shift_right_int v 31) 1) ≡ floor_shift (signed long v) c
asr_long_far v c h far = ground (arith, div-pow_zero 31 c v, div-pow_zero 31 c (2 ^ 32 - v - 1))

asr_long-IsFloorShifted :
    (f : Ccr) (v c : ℕ) → v < modulus long → 0 < c → IsFloorShifted long v c (asr_long f v c)
asr_long-IsFloorShifted f v c h some_count = elim (Bool-cases (ltb c 32)) [
  | inl near ↦ rw near (
      long-IsFloorShifted f v c (shift_right_int v c) _ (shift_right_int-lt v c h)
        (asr_long_value v c h) (asr_long_out v (c - 1) h ∙ ground arith))
  | inr far ↦ rw far (
      long-IsFloorShifted f v c (shift_right_int (shift_right_int v 31) 1) _
        (shift_right_int-lt (shift_right_int v 31) 1 (shift_right_int-lt v 31 h))
        (asr_long_far v c h (ground arith)) (asr_long_out v 31 h ∙ ground arith))
]

-- For an operand of a size and a count above zero, ASR_ gives the signed operand divided by 2 ^ count,
-- rounded down, sets C and X to the last bit that was shifted out (the sign, past the width), clears V,
-- and sets N and Z by the value.
pub asr-IsFloorShifted :
    (s : Size) (f : Ccr) (v c : ℕ) → v < modulus s → 0 < c → IsFloorShifted s v c (asr s f v c)
unfolding asr
asr-IsFloorShifted byte f v c h some_count = rw (count_test c some_count) (
    shifted-IsFloorShifted byte f v c (shift_right_int (sign_extend byte v) (clamp c)) _
      (asr_value byte v (clamp c) h ∙ floor_shift-clamp byte v c h)
      (asr_out byte v (clamp c - 1) h ∙ last_out-clamp byte v c h some_count (omega arith)))
asr-IsFloorShifted word f v c h some_count = rw (count_test c some_count) (
    shifted-IsFloorShifted word f v c (shift_right_int (sign_extend word v) (clamp c)) _
      (asr_value word v (clamp c) h ∙ floor_shift-clamp word v c h)
      (asr_out word v (clamp c - 1) h ∙ last_out-clamp word v c h some_count (omega arith)))
asr-IsFloorShifted long f v c h some_count =
    rw (count_test c some_count) (asr_long-IsFloorShifted f v c h some_count)
