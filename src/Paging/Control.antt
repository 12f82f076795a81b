-- ===== src/Paging/Control.antt =====
-- MOVEC: what is written to a control register and read again.
use newmacemu.Common.{
  ℕ, zero, suc, ◌+◌, ◌-◌, ◌*◌, ◌/◌, ◌%◌, ◌^◌, ◌<◌, ◌≡◌, ◌⊎◌, refl, ap, ◌∙◌, arith, none, some,
  Option-cases, inl, inr, bit_and, bit_or, bit, to_num, not32,
}
use newmacemu.Common.Mask.{bit_and-mod, bit_and-shifted, bit_or-add, pow-lt}
use native.Mathlib.Nat.{one-le-pow}
use newmacemu.Machine.{Machine}
use newmacemu.Paging.{get_ttr, set_ttr}
use newmacemu.Paging.Registers.{
  ControlRegister, sfc, dfc, cacr, tcr, itt0, itt1, dtt0, dtt1, usp, vbr, msp, isp, mmusr, urp, srp,
  control_register, read_control, write_control, movec_from_cr_impl, movec_to_cr_impl,
}

-- Fields above and below place k.
field : (acc q k r : ℕ) → acc ≡ q * 2 ^ k → r < 2 ^ k → bit_or acc r ≡ acc + r
field acc q k r e h = rw e (bit_or-add k q r h)

-- The bits of a transparent translation register: 31 to 13, 9 and 8, 6 and 5, and 2.
abbrev pub ttr_bits : ℕ → ℕ
ttr_bits v =
    v / 2 ^ 13 * 2 ^ 13 + v / 2 ^ 8 % 4 * 2 ^ 8 + v / 2 ^ 5 % 4 * 2 ^ 5 + v / 2 ^ 2 % 2 * 2 ^ 2

bit-num : (v k : ℕ) → to_num (bit v k) ≡ v / 2 ^ k % 2
bit-num v k = ground arith

packed :
    (a b e s u c w : ℕ)
    → b < 2 ^ 8
    → e < 2
    → s < 4
    → u < 4
    → c < 4
    → w < 2
    → bit_or
        (bit_or
          (bit_or
            (bit_or (bit_or (bit_or (a * 2 ^ 24) (b * 2 ^ 16)) (e * 2 ^ 15)) (s * 2 ^ 13))
            (u * 2 ^ 8))
          (c * 2 ^ 5))
        (w * 2 ^ 2)
      ≡ a * 2 ^ 24 + b * 2 ^ 16 + e * 2 ^ 15 + s * 2 ^ 13 + u * 2 ^ 8 + c * 2 ^ 5 + w * 2 ^ 2
packed a b e s u c w hb he hs hu hc hw =
    let s1 : ℕ = a * 2 ^ 24 + b * 2 ^ 16 in
    let s2 : ℕ = s1 + e * 2 ^ 15 in
    let s3 : ℕ = s2 + s * 2 ^ 13 in
    let s4 : ℕ = s3 + u * 2 ^ 8 in
    let s5 : ℕ = s4 + c * 2 ^ 5 in
    rw
      (
        field (a * 2 ^ 24) a 24 (b * 2 ^ 16) refl (omega arith),
        field s1 (a * 2 ^ 8 + b) 16 (e * 2 ^ 15) (omega arith) (omega arith),
        field s2 (a * 2 ^ 9 + b * 2 + e) 15 (s * 2 ^ 13) (omega arith) (omega arith),
        field s3 (a * 2 ^ 11 + b * 2 ^ 3 + e * 2 ^ 2 + s) 13 (u * 2 ^ 8) (omega arith)
            (omega arith),
        field s4 (a * 2 ^ 16 + b * 2 ^ 8 + e * 2 ^ 7 + s * 2 ^ 5 + u) 8 (c * 2 ^ 5) (omega arith)
            (omega arith),
        field s5 (a * 2 ^ 19 + b * 2 ^ 11 + e * 2 ^ 10 + s * 2 ^ 8 + u * 2 ^ 3 + c) 5 (w * 2 ^ 2)
            (omega arith) (omega arith),
      )
      refl

two_fields : (x j y k : ℕ) → y < 2 → k < j → bit_or (x * 2 ^ j) (y * 2 ^ k) ≡ x * 2 ^ j + y * 2 ^ k
two_fields x j y k h lt =
    let le : 2 ^ k < 2 ^ j = pow-lt k j lt in bit_or-add j x (y * 2 ^ k) (low y h)
  where
    low : (y : ℕ) → y < 2 → y * 2 ^ k < 2 ^ j
    low zero h = omega (arith, one-le-pow j 2 (omega arith))
    low (suc zero) h = omega (arith, pow-lt k j lt)
    low (suc (suc y)) h = absurd (omega arith)

get_ttr-set_ttr : (v : ℕ) → v < 2 ^ 32 → get_ttr (set_ttr v) ≡ ttr_bits v
unfolding get_ttr set_ttr
get_ttr-set_ttr v h =
    rw
      (
        bit_and-mod 8 (v / 2 ^ 24),
        bit_and-mod 8 (v / 2 ^ 16),
        bit-num v 15,
        bit_and-mod 2 (v / 2 ^ 13),
        bit_and-mod 2 (v / 2 ^ 8),
        bit_and-mod 2 (v / 2 ^ 5),
        bit-num v 2,
      )
      (packed (v / 2 ^ 24 % 2 ^ 8) (v / 2 ^ 16 % 2 ^ 8) (v / 2 ^ 15 % 2) (v / 2 ^ 13 % 2 ^ 2)
          (v / 2 ^ 8 % 2 ^ 2) (v / 2 ^ 5 % 2 ^ 2) (v / 2 ^ 2 % 2) (omega arith) (omega arith)
          (omega arith) (omega arith) (omega arith) (omega arith)
        ∙ omega arith)

-- The bits of a control register that hold a value.
abbrev pub implemented : ControlRegister → ℕ → ℕ
implemented sfc v = v % 8
implemented dfc v = v % 8
implemented cacr v = v / 2 ^ 31 % 2 * 2 ^ 31 + v / 2 ^ 15 % 2 * 2 ^ 15
implemented tcr v = v / 2 ^ 14 % 4 * 2 ^ 14
implemented itt0 v = ttr_bits v
implemented itt1 v = ttr_bits v
implemented dtt0 v = ttr_bits v
implemented dtt1 v = ttr_bits v
implemented urp v = v / 2 ^ 9 * 2 ^ 9
implemented srp v = v / 2 ^ 9 * 2 ^ 9
implemented _ v = v

clear_root : (v : ℕ) → v < 2 ^ 32 → bit_and v (not32 0x1ff) ≡ v / 2 ^ 9 * 2 ^ 9
clear_root v h =
    bit_and-shifted 9 v (2 ^ 23 - 1)
    ∙ ap (λ (t : ℕ). t * 2 ^ 9) (bit_and-mod 23 (v / 2 ^ 9) ∙ omega arith)

module _ {Io : Type 0} where
  read_control-write_control :
      (r : ControlRegister) (v : ℕ) (m : Machine Io)
      → v < 2 ^ 32
      → (read_control r (write_control r v m)).0 ≡ implemented r v
  unfolding read_control write_control
  read_control-write_control sfc v m h = bit_and-mod 3 v
  read_control-write_control dfc v m h = bit_and-mod 3 v
  read_control-write_control cacr v m h =
      rw (bit-num v 31, bit-num v 15)
        (two_fields (v / 2 ^ 31 % 2) 31 (v / 2 ^ 15 % 2) 15 (omega arith) (omega arith))
  read_control-write_control tcr v m h =
      rw (bit-num v 15, bit-num v 14)
        (two_fields (v / 2 ^ 15 % 2) 15 (v / 2 ^ 14 % 2) 14 (omega arith) (omega arith)
          ∙ omega arith)
  read_control-write_control itt0 v m h = get_ttr-set_ttr v h
  read_control-write_control itt1 v m h = get_ttr-set_ttr v h
  read_control-write_control dtt0 v m h = get_ttr-set_ttr v h
  read_control-write_control dtt1 v m h = get_ttr-set_ttr v h
  read_control-write_control usp v m h = refl
  read_control-write_control vbr v m h = refl
  read_control-write_control msp v m h = ground arith
  read_control-write_control isp v m h = ground arith
  read_control-write_control mmusr v m h = refl
  read_control-write_control urp v m h = clear_root v h
  read_control-write_control srp v m h = clear_root v h

  -- MOVEC from a control register after MOVEC to it: a number that names no register is refused by both;
  -- for any other, both succeed, and the value read is what was written in the register's implemented
  -- bits and zero in the rest.
  pub movec_from-movec_to :
      (extw v : ℕ) (m : Machine Io)
      → extw < 2 ^ 12
      → v < 2 ^ 32
      → ((movec_to_cr_impl extw v m ≡ none) × (movec_from_cr_impl extw m ≡ none))
        ⊎ ((r : ControlRegister) × (after : Machine Io) × (last : Machine Io) × (control_register
                extw
              ≡ some r)
            × (movec_to_cr_impl extw v m ≡ some after)
            × (movec_from_cr_impl extw after ≡ some (implemented r v, last)))
  unfolding movec_to_cr_impl movec_from_cr_impl
  movec_from-movec_to extw v m small h =
      let same : extw % 2 ^ 12 ≡ extw = omega arith in
      elim (Option-cases (control_register extw)) [
        | inl refused ↦ inl (rw (same, refused) refl, rw refused refl)
        | inr (r, found) ↦
            let after : Machine Io = write_control r v m in
            inr (
              r,
              after,
              (read_control r after).1,
              found,
              rw (same, found) refl,
              rw found (
                  ap (λ (x : ℕ). some (x, (read_control r after).1))
                    (read_control-write_control r v m h)),
            )
      ]
