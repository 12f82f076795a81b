-- ===== src/Rotate/Plain.antt =====
-- ROR_ and ROL_ move every bit along a ring.
use newmacemu.Common.{
  ℕ, ◌+◌, ◌-◌, ◌*◌, ◌/◌, ◌%◌, ◌^◌, ◌≤◌, ◌<◌, ◌≡◌, refl, sym, ap, ◌∙◌, Bool, true, false, ◌&&◌, ◌||◌,
  Option, some, arith, bit_or, bit, ltb, ◌==◌, if◌then◌else◌, Size, byte, word, long, wrap, bits,
  top, modulus, Bool-cases, inl, inr,
}
use mathlib.Core.Path.{ap₂}
use newmacemu.Common.Bits.{bit-bit_or, bit_above}
use newmacemu.Common.Select.{bit-div, bit-mul, bit-mul_low, bit-mod}
use newmacemu.Ccr.{Ccr, Alu, test}
use newmacemu.Rotate.{ror, rol, rotated, rotated_x, right_bits, left_bits}

or-false : (b : Bool) → (b || false) ≡ b
or-false b = ground arith

-- The place on a ring of w bits that is c places above place k; c is at most w.
abbrev pub ring_up : ℕ → ℕ → ℕ → ℕ
ring_up w k c = if ltb (k + c) w then k + c else k + c - w

abbrev pub ring_down : ℕ → ℕ → ℕ → ℕ
ring_down w k c = if ltb k c then k + w - c else k - c

-- Bit k of `v * 2 ^ n`, whichever side of place n it is.
pub bit-shifted : (n k v : ℕ) → bit (v * 2 ^ n) k ≡ (if ltb k n then false else bit v (k - n))
bit-shifted n k v = elim (Bool-cases (ltb k n)) [
  | inl low ↦ rw low (bit-mul_low n k v (ground arith))
  | inr high ↦ rw high (ap (bit (v * 2 ^ n)) (ground arith) ∙ bit-mul n (k - n) v)
]

-- The two halves of a rotation never meet in one place.
pub bit-right_bits :
    (s : Size) (v c k : ℕ)
    → v < modulus s
    → c ≤ bits s
    → k < bits s
    → bit (right_bits s v c) k ≡ bit v (ring_up (bits s) k c)
bit-right_bits s v c k h le small =
    bit-mod (bits s) k (bit_or (v / 2 ^ c) (v * 2 ^ (bits s - c))) small
    ∙ bit-bit_or k (v / 2 ^ c) (v * 2 ^ (bits s - c))
    ∙ ap₂ ◌||◌ (bit-div c k v) (bit-shifted (bits s - c) k v)
    ∙ meet
  where
    meet :
        (bit v (k + c) || (if ltb k (bits s - c) then false else bit v (k - (bits s - c))))
        ≡ bit v (ring_up (bits s) k c)
    meet = elim (Bool-cases (ltb (k + c) (bits s))) [
      | inl stays ↦
          let low : ltb k (bits s - c) ≡ true = ground arith in
          rw (stays, low) (or-false (bit v (k + c)))
      | inr wraps ↦
          let high : ltb k (bits s - c) ≡ false = ground arith in
          let gone : bit v (k + c) ≡ false = bit_above (bits s) (k + c) v h (ground arith) in
          let place : k - (bits s - c) ≡ k + c - bits s = ground arith in
          rw (wraps, high, gone) (ap (bit v) place)
    ]

pub bit-left_bits :
    (s : Size) (v c k : ℕ)
    → v < modulus s
    → c ≤ bits s
    → k < bits s
    → bit (left_bits s v c) k ≡ bit v (ring_down (bits s) k c)
bit-left_bits s v c k h le small =
    bit-mod (bits s) k (bit_or (v * 2 ^ c) (v / 2 ^ (bits s - c))) small
    ∙ bit-bit_or k (v * 2 ^ c) (v / 2 ^ (bits s - c))
    ∙ ap₂ ◌||◌ (bit-shifted c k v) (bit-div (bits s - c) k v)
    ∙ meet
  where
    meet :
        ((if ltb k c then false else bit v (k - c)) || bit v (k + (bits s - c)))
        ≡ bit v (ring_down (bits s) k c)
    meet = elim (Bool-cases (ltb k c)) [
      | inl wraps ↦
          let place : k + (bits s - c) ≡ k + bits s - c = ground arith in
          rw wraps (ap (bit v) place)
      | inr stays ↦
          let gone : bit v (k + (bits s - c)) ≡ false =
            bit_above (bits s) (k + (bits s - c)) v h (ground arith) in
          rw (stays, gone) (or-false (bit v (k - c)))
    ]

-- A ring of the bits of v: the result exists, its bit k is bit `place k` of the operand, C and X are
-- what `out` and `x` say of the new value, and V is cleared.
pub record IsRing (s : Size) (v : ℕ) (place : ℕ → ℕ) (out x : ℕ → Bool) (o : Option Alu)
    : Type 0 where
  pub result : Alu
  pub returns : o ≡ some result
  pub in_range : result.value < modulus s
  pub each : (k : ℕ) → bit result.value k ≡ (ltb k (bits s) && bit v (place k))
  pub carry : result.ccr.c ≡ out result.value
  pub overflow : result.ccr.v ≡ false
  pub extend : result.ccr.x ≡ x result.value

pub wrap-lt : (s : Size) (x : ℕ) → wrap s x < modulus s
wrap-lt byte x = omega arith
wrap-lt word x = omega arith
wrap-lt long x = omega arith

-- The bits of a value of the size, given those below the width.
guarded :
    (s : Size) (re k : ℕ) (b : Bool)
    → re < modulus s
    → (k < bits s → bit re k ≡ b)
    → bit re k ≡ (ltb k (bits s) && b)
guarded s re k b small below = elim (Bool-cases (ltb k (bits s))) [
  | inl low ↦ rw low (below (ground arith))
  | inr high ↦ rw high (bit_above (bits s) k re small (ground arith))
]

last_up : (w c : ℕ) → 0 < c → c < w → ring_up w (w - 1) c ≡ c - 1
last_up w c h le = ground arith

first_down : (w c : ℕ) → 0 < c → c < w → ring_down w 0 c ≡ w - c
first_down w c h le = ground arith

pub up-down : (w k c : ℕ) → k < w → c < w → ring_up w (ring_down w k c) c ≡ k
up-down w k c h le = ground arith

pub down-lt : (w k c : ℕ) → k < w → c < w → ring_down w k c < w
down-lt w k c h le = ground arith

module _ (s : Size) (f : Ccr) (v c : ℕ) (h : v < modulus s) (some_bits : 0 < c % bits s) where
  pub turn-lt : c % bits s < bits s
  turn-lt = below s
    where
      below : (s : Size) → c % bits s < bits s
      below byte = omega arith
      below word = omega arith
      below long = omega arith

  right_carry : bit v (c % bits s - 1) ≡ bit (right_bits s v (c % bits s)) (top s)
  right_carry = sym (
      bit-right_bits s v (c % bits s) (top s) h (omega (arith, turn-lt)) (top-lt s)
      ∙ ap (bit v) (last s some_bits turn-lt))
    where
      top-lt : (s : Size) → top s < bits s
      top-lt byte = omega arith
      top-lt word = omega arith
      top-lt long = omega arith

      last :
          (s : Size)
          → 0 < c % bits s
          → c % bits s < bits s
          → ring_up (bits s) (top s) (c % bits s) ≡ c % bits s - 1
      last byte p q = last_up 8 (c % 8) p q
      last word p q = last_up 16 (c % 16) p q
      last long p q = last_up 32 (c % 32) p q

  left_carry : bit v (bits s - c % bits s) ≡ bit (left_bits s v (c % bits s)) 0
  left_carry = sym (
      bit-left_bits s v (c % bits s) 0 h (omega (arith, turn-lt)) (omega (arith, turn-lt))
      ∙ ap (bit v) (first s some_bits turn-lt))
    where
      first :
          (s : Size)
          → 0 < c % bits s
          → c % bits s < bits s
          → ring_down (bits s) 0 (c % bits s) ≡ bits s - c % bits s
      first byte p q = first_down 8 (c % 8) p q
      first word p q = first_down 16 (c % 16) p q
      first long p q = first_down 32 (c % 32) p q

-- How ROL_ of the size ends: X is written by ROL_L only.
abbrev rotated_by : Size → Ccr → ℕ → Bool → Alu
rotated_by byte = rotated byte
rotated_by word = rotated word
rotated_by long = rotated_x long

pos_test : (c : ℕ) → 0 < c → (c == 0) ≡ false
pos_test c h = ground arith

ror-returns :
    (s : Size) (f : Ccr) (v c : ℕ)
    → 0 < c % bits s
    → ror s f v c ≡ some (rotated s f (right_bits s v (c % bits s)) (bit v (c % bits s - 1)))
unfolding ror test
ror-returns byte f v c h = ground arith
ror-returns word f v c h = ground arith
ror-returns long f v c h = rw (pos_test c (omega arith), pos_test (c % 32) h)

rol-returns :
    (s : Size) (f : Ccr) (v c : ℕ)
    → 0 < c % bits s
    → rol s f v c ≡ some (rotated_by s f (left_bits s v (c % bits s)) (bit v (bits s - c % bits s)))
unfolding rol test
rol-returns byte f v c h = rw (pos_test c (omega arith))
rol-returns word f v c h = rw (pos_test c (omega arith))
rol-returns long f v c h = rw (pos_test c (omega arith), pos_test (c % 32) h)

-- What X is after ROL_, and how its new value is to be read for C.
abbrev pub rol_extend : Size → Ccr → ℕ → Bool
rol_extend byte f re = f.x
rol_extend word f re = f.x
rol_extend long f re = bit re 0

rotated_by-carry : (s : Size) (f : Ccr) (re : ℕ) (out : Bool) → (rotated_by s f re out).ccr.c ≡ out
unfolding test
rotated_by-carry byte f re out = refl
rotated_by-carry word f re out = refl
rotated_by-carry long f re out = refl

rotated_by-overflow :
    (s : Size) (f : Ccr) (re : ℕ) (out : Bool) → (rotated_by s f re out).ccr.v ≡ false
unfolding test
rotated_by-overflow byte f re out = refl
rotated_by-overflow word f re out = refl
rotated_by-overflow long f re out = refl

rotated_by-value : (s : Size) (f : Ccr) (re : ℕ) (out : Bool) → (rotated_by s f re out).value ≡ re
rotated_by-value byte f re out = refl
rotated_by-value word f re out = refl
rotated_by-value long f re out = refl

rotated_by-extend :
    (s : Size) (f : Ccr) (re : ℕ) (out : Bool)
    → out ≡ bit re 0
    → (rotated_by s f re out).ccr.x ≡ rol_extend s f re
unfolding test
rotated_by-extend byte f re out e = refl
rotated_by-extend word f re out e = refl
rotated_by-extend long f re out e = e

module _ (s : Size) (f : Ccr) (v c : ℕ) (h : v < modulus s) (some_bits : 0 < c % bits s) where
  -- For an operand of a size and a count that is no multiple of its width, ROR_ has a defined result,
  -- whose bit k is bit k + count of the operand on the ring of the width; C is the top bit of the
  -- result, V is cleared and X is kept.
  pub ror-IsRing :
      IsRing s v
        (λ k. ring_up (bits s) k (c % bits s))
        (λ re. bit re (top s))
        (λ _. f.x)
        (ror s f v c)
  unfolding test
  ror-IsRing = record {
    result = rotated s f (right_bits s v (c % bits s)) (bit v (c % bits s - 1));
    returns = ror-returns s f v c some_bits;
    in_range = wrap-lt s _;
    each = λ k. guarded s (right_bits s v (c % bits s)) k _ (wrap-lt s _) λ small.
        bit-right_bits s v (c % bits s) k h (omega (arith, turn-lt s f v c h some_bits)) small;
    carry = right_carry s f v c h some_bits;
    overflow = refl;
    extend = refl;
  }

  -- For an operand of a size and a count that is no multiple of its width, ROL_ has a defined result,
  -- whose bit k is bit k - count of the operand on the ring of the width; C is the lowest bit of the
  -- result and V is cleared; ROL_B and ROL_W keep X, and ROL_L sets X to the lowest bit too.
  pub rol-IsRing :
      IsRing s v
        (λ k. ring_down (bits s) k (c % bits s))
        (λ re. bit re 0)
        (rol_extend s f)
        (rol s f v c)
  rol-IsRing =
      let re : ℕ = left_bits s v (c % bits s) in
      let out : Bool = bit v (bits s - c % bits s) in
      let whole = rotated_by-value s f re out in
      record {
        result = rotated_by s f re out;
        returns = rol-returns s f v c some_bits;
        in_range = rw whole (wrap-lt s _);
        each = λ k.
            ap (λ t. bit t k) whole
            ∙ guarded s re k _ (wrap-lt s _) λ small.
              bit-left_bits s v (c % bits s) k h (omega (arith, turn-lt s f v c h some_bits)) small;
        carry =
            rotated_by-carry s f re out
            ∙ left_carry s f v c h some_bits
            ∙ ap (λ t. bit t 0) (sym whole);
        overflow = rotated_by-overflow s f re out;
        extend =
            rotated_by-extend s f re out (left_carry s f v c h some_bits)
            ∙ ap (rol_extend s f) (sym whole);
      }
