-- ===== src/Bitfield/Ring.antt =====
-- The fields of a register as places on a ring of 32 bits.
use newmacemu.Common.{
  ℕ, ◌+◌, ◌-◌, ◌*◌, ◌/◌, ◌%◌, ◌^◌, ◌<◌, ◌≤◌, ◌≡◌, refl, sym, ap, ap₂, ◌∙◌, arith, Bool, true, false,
  not, ◌&&◌, ◌||◌, bit_and, bit_or, bit, not32, ltb, leb, if◌then◌else◌, Bool-cases, inl, inr, long,
}
use native.Mathlib.Nat.{div-le_self, mod-lt, one-le-pow, pow-le-pow_right}
use newmacemu.Common.Bits.{
  bit-bit_or, bit-bit_and, bit-not32, bit-complement, bit_above, bit_ext, bit_and-lt, bit_or-lt,
}
use newmacemu.Common.Select.{bit-div, bit-mod}
use newmacemu.Ccr.{Ccr}
use newmacemu.Rotate.Plain.{
  ring_up, ring_down, bit-left_bits, bit-right_bits, bit-shifted, up-down, down-lt,
}
use newmacemu.Bitfield.{rotl, rotr, high_mask, aligned, bfins_d, bfextu_d}

bit-rotl : (v n k : ℕ) → v < 2 ^ 32 → k < 32 → bit (rotl v n) k ≡ bit v (ring_down 32 k (n % 32))
bit-rotl v n k h small =
    bit-bit_or k (v * 2 ^ (n % 32) % 2 ^ 32) (v / 2 ^ (32 - n % 32))
    ∙ ap (λ b. b || bit (v / 2 ^ (32 - n % 32)) k) (bit-mod 32 k (v * 2 ^ (n % 32)) small)
    ∙ sym (bit-bit_or k (v * 2 ^ (n % 32)) (v / 2 ^ (32 - n % 32)))
    ∙ sym (bit-mod 32 k (bit_or (v * 2 ^ (n % 32)) (v / 2 ^ (32 - n % 32))) small)
    ∙ bit-left_bits long v (n % 32) k h (omega arith) small

bit-rotr : (v n k : ℕ) → v < 2 ^ 32 → k < 32 → bit (rotr v n) k ≡ bit v (ring_up 32 k (n % 32))
bit-rotr v n k h small =
    bit-bit_or k (v / 2 ^ (n % 32)) (v * 2 ^ (32 - n % 32) % 2 ^ 32)
    ∙ ap (λ b. bit (v / 2 ^ (n % 32)) k || b) (bit-mod 32 k (v * 2 ^ (32 - n % 32)) small)
    ∙ sym (bit-bit_or k (v / 2 ^ (n % 32)) (v * 2 ^ (32 - n % 32)))
    ∙ sym (bit-mod 32 k (bit_or (v / 2 ^ (n % 32)) (v * 2 ^ (32 - n % 32))) small)
    ∙ bit-right_bits long v (n % 32) k h (omega arith) small

low_ones : (n k : ℕ) → bit (2 ^ n - 1) k ≡ ltb k n
low_ones n k = elim (Bool-cases (ltb k n)) [
  | inl low ↦ rw low (
      ap (λ (t : ℕ). bit t k) minus_zero
      ∙ bit-complement n k 0 (ground arith) (one-le-pow n 2 (omega arith))
      ∙ zero_bit k)
  | inr high ↦
      rw high
        (bit_above n k (2 ^ n - 1) (omega (arith, one-le-pow n 2 (omega arith))) (ground arith))
]
  where
    minus_zero : 2 ^ n - 1 ≡ 2 ^ n - 1 - 0
    minus_zero = omega arith

    zero_bit : (k : ℕ) → not (bit 0 k) ≡ true
    zero_bit k = rw (bit_above 0 k 0 (omega arith) (omega arith)) refl

bit-high_mask : (width k : ℕ) → k < 32 → bit (high_mask width) k ≡ leb (32 - width) k
bit-high_mask width k small =
    let n : ℕ = 32 - width in
    let pos : 0 < 2 ^ n = one-le-pow n 2 (omega arith) in
    let le : 2 ^ n ≤ 2 ^ 32 = pow-le-pow_right (omega arith) {j = 32} (omega arith) in
    let same : high_mask width ≡ 2 ^ 32 - 1 - (2 ^ n - 1) = omega arith in
    rw same
      (bit-complement 32 k (2 ^ n - 1) small (omega arith) ∙ ap not (low_ones n k) ∙ ground arith)

high_mask-lt : (width : ℕ) → high_mask width < 2 ^ 32
high_mask-lt width =
    let pos : 0 < 2 ^ (32 - width) = one-le-pow (32 - width) 2 (omega arith) in omega arith

div-lt : (x c : ℕ) → x < 2 ^ 32 → x / 2 ^ c < 2 ^ 32
div-lt x c h = omega (arith, div-le_self x (2 ^ c))

rotl-lt : (v n : ℕ) → v < 2 ^ 32 → rotl v n < 2 ^ 32
rotl-lt v n h =
    bit_or-lt 32 (v * 2 ^ (n % 32) % 2 ^ 32) (v / 2 ^ (32 - n % 32)) (omega arith)
      (div-lt v (32 - n % 32) h)

down-up : (k c : ℕ) → k < 32 → c < 32 → ring_down 32 (ring_up 32 k c) c ≡ k
down-up k c h le = ground arith

up-lt : (k c : ℕ) → k < 32 → c < 32 → ring_up 32 k c < 32
up-lt k c h le = ground arith

-- The word that BFINS_D rotates back.
abbrev combined : ℕ → ℕ → ℕ → ℕ → ℕ
combined old off width v =
    bit_or (bit_and (rotl old off) (not32 (high_mask width))) (aligned v width)

combined-lt : (old off width v : ℕ) → old < 2 ^ 32 → combined old off width v < 2 ^ 32
combined-lt old off width v h =
    bit_or-lt 32 (bit_and (rotl old off) (not32 (high_mask width))) (aligned v width)
      (bit_and-lt 32 (rotl old off) (not32 (high_mask width)) (rotl-lt old off h)) (omega arith)

select : (b x y : Bool) → ((x && not b) || (if b then y else false)) ≡ (if b then y else x)
select true x y = ground arith
select false x y = ground arith

bit-aligned :
    (v width j : ℕ)
    → j < 32
    → bit (aligned v width) j ≡ (if leb (32 - width) j then bit v (j - (32 - width)) else false)
bit-aligned v width j small =
    bit-mod 32 j (v * 2 ^ (32 - width)) small ∙ bit-shifted (32 - width) j v ∙ ground arith

bit-combined :
    (old off width v j : ℕ)
    → old < 2 ^ 32
    → j < 32
    → bit (combined old off width v) j ≡ (
        if leb (32 - width) j
        then bit v (j - (32 - width))
        else bit old (ring_down 32 j (off % 32)))
bit-combined old off width v j h small =
    bit-bit_or j (bit_and (rotl old off) (not32 (high_mask width))) (aligned v width)
    ∙ ap₂ ◌||◌
        (bit-bit_and j (rotl old off) (not32 (high_mask width))
          ∙ ap₂ ◌&&◌ (bit-rotl old off j h small) (
              bit-not32 j (high_mask width) small (high_mask-lt width)
              ∙ ap not (bit-high_mask width j small)))
        (bit-aligned v width j small)
    ∙ select (leb (32 - width) j) (bit old (ring_down 32 j (off % 32))) (bit v (j - (32 - width)))

-- BFINS_D of a 32-bit register, at any offset and width: with j the place, on the register's ring, that
-- is the offset above bit k, bit k of the result is bit j - (32 - width) of the value if j is at least
-- 32 - width, and bit k of the old register otherwise.
pub bfins_d_lem :
    (f : Ccr) (old off width v k : ℕ)
    → old < 2 ^ 32
    → k < 32
    → bit (bfins_d f old off width v).value k ≡ (
        if leb (32 - width) (ring_up 32 k (off % 32))
        then bit v (ring_up 32 k (off % 32) - (32 - width))
        else bit old k)
unfolding bfins_d
bfins_d_lem f old off width v k h small =
    let turn : off % 32 < 32 = omega arith in
    let j-lt : ring_up 32 k (off % 32) < 32 = up-lt k (off % 32) small turn in
    bit-rotr (combined old off width v) off k (combined-lt old off width v h) small
    ∙ bit-combined old off width v (ring_up 32 k (off % 32)) h j-lt
    ∙ ap
        (λ t.
          if leb (32 - width) (ring_up 32 k (off % 32))
          then bit v (ring_up 32 k (off % 32) - (32 - width))
          else bit old t)
        (down-up k (off % 32) small turn)

-- BFEXTU_D, at a width from 1 to 32: bit k of the result, below the width, is the register's bit that
-- is, on its ring, the offset below place k + 32 - width.
bit-bfextu_d :
    (f : Ccr) (v off width k : ℕ)
    → v < 2 ^ 32
    → width ≤ 32
    → k < width
    → bit (bfextu_d f v off width).value k ≡ bit v (ring_down 32 (k + (32 - width)) (off % 32))
unfolding bfextu_d
bit-bfextu_d f v off width k h le small =
    let twice : off % 32 % 32 ≡ off % 32 = omega arith in
    let in_mask : leb (32 - width) (k + (32 - width)) ≡ true = ground arith in
    let place : k + (32 - width) < 32 = omega arith in
    bit-div (32 - width) k (bit_and (rotl v (off % 32)) (high_mask width))
    ∙ bit-bit_and (k + (32 - width)) (rotl v (off % 32)) (high_mask width)
    ∙ ap₂ ◌&&◌ (bit-rotl v (off % 32) (k + (32 - width)) h place)
        (bit-high_mask width (k + (32 - width)) place ∙ in_mask)
    ∙ rw twice (ground arith)

rotr-lt : (v n : ℕ) → v < 2 ^ 32 → rotr v n < 2 ^ 32
rotr-lt v n h =
    bit_or-lt 32 (v / 2 ^ (n % 32)) (v * 2 ^ (32 - n % 32) % 2 ^ 32) (div-lt v (n % 32) h)
      (omega arith)

mod-own : (v n : ℕ) → v % 2 ^ n < 2 ^ n
mod-own v n = let pos : 0 < 2 ^ n = one-le-pow n 2 (omega arith) in mod-lt v pos

mod_pow-lt : (v n : ℕ) → n ≤ 32 → v % 2 ^ n < 2 ^ 32
mod_pow-lt v n h =
    let le : 2 ^ n ≤ 2 ^ 32 = pow-le-pow_right (omega arith) {j = 32} h in
    omega (arith, mod-own v n)

inserted :
    (f : Ccr) (old off width v k : ℕ)
    → old < 2 ^ 32
    → width ≤ 32
    → k < width
    → bit (bfins_d f old off width v).value (ring_down 32 (k + (32 - width)) (off % 32)) ≡ bit v k
inserted f old off width v k h le small =
    let j : ℕ = k + (32 - width) in
    let place : ring_down 32 j (off % 32) < 32 =
      down-lt 32 j (off % 32) (omega arith) (omega arith) in
    let back : ring_up 32 (ring_down 32 j (off % 32)) (off % 32) ≡ j =
      up-down 32 j (off % 32) (omega arith) (omega arith) in
    let in_field : leb (32 - width) j ≡ true = ground arith in
    bfins_d_lem f old off width v (ring_down 32 j (off % 32)) h place
    ∙ rw (back, in_field) (ap (bit v) (omega arith))

bfextu_d-lt : (f : Ccr) (v off width : ℕ) → v < 2 ^ 32 → (bfextu_d f v off width).value < 2 ^ 32
unfolding bfextu_d
bfextu_d-lt f v off width h =
    div-lt (bit_and (rotl v (off % 32)) (high_mask width)) (32 - width)
      (bit_and-lt 32 (rotl v (off % 32)) (high_mask width) (rotl-lt v (off % 32) h))

bfextu_d-above :
    (f : Ccr) (v off width k : ℕ)
    → v < 2 ^ 32
    → width ≤ k
    → bit (bfextu_d f v off width).value k ≡ false
unfolding bfextu_d
bfextu_d-above f v off width k h le =
    bit-div (32 - width) k (bit_and (rotl v (off % 32)) (high_mask width))
    ∙ bit_above 32 (k + (32 - width)) (bit_and (rotl v (off % 32)) (high_mask width))
        (bit_and-lt 32 (rotl v (off % 32)) (high_mask width) (rotl-lt v (off % 32) h)) (omega arith)

bfins_d-lt :
    (f : Ccr) (old off width v : ℕ) → old < 2 ^ 32 → (bfins_d f old off width v).value < 2 ^ 32
unfolding bfins_d
bfins_d-lt f old off width v h =
    rotr-lt (combined old off width v) off (combined-lt old off width v h)

-- BFEXTU_D of the field that BFINS_D wrote into a 32-bit register, at the same offset and the same width
-- from 0 to 32, gives the low bits of the value, as many as the width.
pub bfextu_d-bfins_d :
    (f g : Ccr) (old off width v : ℕ)
    → old < 2 ^ 32
    → width ≤ 32
    → (bfextu_d g (bfins_d f old off width v).value off width).value ≡ v % 2 ^ width
bfextu_d-bfins_d f g old off width v h le =
    let y : ℕ = (bfins_d f old off width v).value in
    let y-lt : y < 2 ^ 32 = bfins_d-lt f old off width v h in
    bit_ext 32 (bfextu_d g y off width).value (v % 2 ^ width) (bfextu_d-lt g y off width y-lt)
      (mod_pow-lt v width le)
      λ k small. elim (Bool-cases (ltb k width)) [
        | inl low ↦
            bit-bfextu_d g y off width k y-lt le (ground arith)
            ∙ inserted f old off width v k h le (ground arith)
            ∙ sym (bit-mod width k v (ground arith))
        | inr high ↦
            bfextu_d-above g y off width k y-lt (ground arith)
            ∙ sym (bit_above width k (v % 2 ^ width) (mod-own v width) (ground arith))
      ]
