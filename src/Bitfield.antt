-- ===== src/Bitfield.antt =====
-- src/cpu/bitfield.cc, the functions on registers, and what those on memory share with them. An offset
-- is the bit pattern of its `int`; the callers pass a width from 1 to 32. The functions return the
-- flags with the value, as an `Alu`.
pub mod Memory
pub mod Insert
pub mod Ring
use newmacemu.Common.{
  ℕ, zero, suc, ◌+◌, ◌-◌, ◌*◌, ◌/◌, ◌%◌, ◌^◌, Bool, false, bit_and, bit_or, bit_xor, bit, not32,
  ◌==◌, if◌then◌else◌, long, shift_right_int,
}
use newmacemu.Ccr.{Ccr, Alu, test}

-- std::rotl and std::rotr of <bit> on a uint32_t.
abbrev pub rotl : ℕ → ℕ → ℕ
rotl v n = bit_or (v * 2 ^ (n % 32) % 2 ^ 32) (v / 2 ^ (32 - n % 32))

abbrev pub rotr : ℕ → ℕ → ℕ
rotr v n = bit_or (v / 2 ^ (n % 32)) (v * 2 ^ (32 - n % 32) % 2 ^ 32)

-- std::countl_zero on the lowest k bits.
abbrev pub countl_zero : ℕ → ℕ → ℕ
countl_zero zero x = 0
countl_zero (suc k) x = let rest : ℕ = countl_zero k x in if bit x k then 0 else suc rest

-- `-1 << (32 - width)`.
abbrev pub high_mask : ℕ → ℕ
high_mask width = 2 ^ 32 - 2 ^ (32 - width)

unfoldable pub bf_d : ℕ → ℕ → ℕ → ℕ
bf_d v offset width = bit_and (rotl v (offset % 32)) (high_mask width)

-- `cpu.V = cpu.C = false; TEST_L(x)`.
abbrev pub tested : Ccr → ℕ → Ccr
tested f x = test long x (record f { v = false; c = false })

unfoldable pub bftst_d : Ccr → ℕ → ℕ → ℕ → Alu
unfolding bf_d test
bftst_d f v offset width = let x : ℕ = bf_d v offset width in record { ccr = tested f x; value = x }

-- The mask of BFCHG_D, BFCLR_D and BFSET_D.
abbrev pub field_mask : ℕ → ℕ → ℕ
field_mask offset width = rotr (high_mask width) offset

unfoldable pub bfchg_d : Ccr → ℕ → ℕ → ℕ → Alu
unfolding bftst_d
bfchg_d f v offset width = record (bftst_d f v offset width) {
  value = bit_xor v (field_mask offset width);
}

unfoldable pub bfclr_d : Ccr → ℕ → ℕ → ℕ → Alu
unfolding bftst_d
bfclr_d f v offset width = record (bftst_d f v offset width) {
  value = bit_and v (not32 (field_mask offset width));
}

unfoldable pub bfset_d : Ccr → ℕ → ℕ → ℕ → Alu
unfolding bftst_d
bfset_d f v offset width = record (bftst_d f v offset width) {
  value = bit_or v (field_mask offset width);
}

unfoldable pub bfextu_d : Ccr → ℕ → ℕ → ℕ → Alu
unfolding bftst_d
bfextu_d f v offset width =
    let r = bftst_d f v offset width in record r { value = r.value / 2 ^ (32 - width) }

unfoldable pub bfexts_d : Ccr → ℕ → ℕ → ℕ → Alu
unfolding bftst_d
bfexts_d f v offset width =
    let r = bftst_d f v offset width in record r { value = shift_right_int r.value (32 - width) }

-- `offset + (x ? std::countl_zero(x) : width)`.
abbrev pub found : ℕ → ℕ → ℕ → ℕ
found x offset width = (offset + (if x == 0 then width else countl_zero 32 x)) % 2 ^ 32

unfoldable pub bfffo_d : Ccr → ℕ → ℕ → ℕ → Alu
unfolding bftst_d
bfffo_d f v offset width =
    let r = bftst_d f v offset width in record r { value = found r.value offset width }

-- `v << (32 - width)` on a uint32_t.
abbrev pub aligned : ℕ → ℕ → ℕ
aligned v width = v * 2 ^ (32 - width) % 2 ^ 32

-- The source's `v &= -1 >> (32 - width)` keeps every bit, since -1 is an `int`.
unfoldable pub bfins_d : Ccr → ℕ → ℕ → ℕ → ℕ → Alu
unfolding test
bfins_d f old offset width v =
    let x : ℕ = bit_and (rotl old offset) (not32 (high_mask width)) in
    record { ccr = tested f (aligned v width); value = rotr (bit_or x (aligned v width)) offset }
