-- ===== src/Bcd/Packing.antt =====
-- PACK and UNPK undo each other.
use newmacemu.Common.{ℕ, ◌+◌, ◌-◌, ◌*◌, ◌/◌, ◌%◌, ◌^◌, ◌<◌, ◌≡◌, ◌∙◌, arith, bit_and, bit_or}
use newmacemu.Common.Mask.{bit_and-mod, bit_or-add, bit_and-shifted, bit_or_comm}
use newmacemu.Bcd.{pack, unpk}

-- The high digit, moved by the masks of the source.
high_digit : (v : ℕ) → v < 256 → bit_and v 0xf0 ≡ v / 16 * 16
high_digit v h = omega (arith, bit_and-shifted 4 v 15, bit_and-mod 4 (v / 16))

low_digit : (v : ℕ) → bit_and v 0xf ≡ v % 16
low_digit v = bit_and-mod 4 v

third_digit : (d : ℕ) → bit_and d 0xf00 ≡ d / 256 % 16 * 256
third_digit d = omega (arith, bit_and-shifted 8 d 15, bit_and-mod 4 (d / 256))

-- UNPK puts each digit into a byte of its own and adds the adjustment.
pub unpk_lem : (v adj : ℕ) → v < 256 → unpk v adj ≡ (v / 16 * 256 + v % 16 + adj) % 2 ^ 16
unfolding unpk
unpk_lem v adj h =
    let spread : bit_or (v / 16 * 16 * 16) (v % 16) ≡ v / 16 * 256 + v % 16 =
      rw (regroup v) (bit_or-add 8 (v / 16) (v % 16) (omega arith)) in
    rw (high_digit v h, low_digit v, spread)
  where
    regroup : (v : ℕ) → v / 16 * 16 * 16 ≡ v / 16 * 256
    regroup v = omega arith

-- PACK adds the adjustment and joins the low digits of the two bytes.
pub pack_lem : (v adj : ℕ) → let d = (v + adj) % 2 ^ 16 in pack v adj ≡ d / 256 % 16 * 16 + d % 16
unfolding pack
pack_lem v adj =
    let d : ℕ = (v + adj) % 2 ^ 16 in
    let high : d / 256 % 16 * 256 / 16 ≡ d / 256 % 16 * 16 = omega arith in
    let join : bit_or (d % 16) (d / 256 % 16 * 16) ≡ d / 256 % 16 * 16 + d % 16 =
      bit_or_comm 8 (d % 16) (d / 256 % 16 * 16) (omega arith) (omega arith)
      ∙ bit_or-add 4 (d / 256 % 16) (d % 16) (omega arith) in
    rw (low_digit d, third_digit d, high, join) (omega arith)

-- For a byte and a 16-bit adjustment, PACK with the negated adjustment gives back the byte that UNPK
-- spread with the adjustment.
pub pack-unpk :
    (v adj : ℕ) → v < 256 → adj < 2 ^ 16 → pack (unpk v adj) ((2 ^ 16 - adj) % 2 ^ 16) ≡ v
pack-unpk v adj h small =
    omega (arith, unpk_lem v adj h, pack_lem (unpk v adj) ((2 ^ 16 - adj) % 2 ^ 16))
