-- ===== src/Bcd.antt =====
-- src/cpu/bcd.cc: decimal arithmetic on bytes of two digits, and PACK and UNPK.
pub mod Decimal
pub mod Packing
use newmacemu.Common.{
  ℕ, ◌+◌, ◌-◌, ◌*◌, ◌/◌, ◌%◌, ◌^◌, Bool, false, not, bit_and, bit_or, to_num, ltb, leb, ◌==◌,
  if◌then◌else◌,
}
use newmacemu.Ccr.{Ccr, Alu}

-- BCD2BIN returns a uint8_t.
unfoldable pub bcd2bin : ℕ → ℕ
bcd2bin v = (v / 2 ^ 4 * 10 + bit_and v 0xf) % 2 ^ 8

-- BIN2BCD takes and returns a uint8_t.
unfoldable pub bin2bcd : ℕ → ℕ
bin2bcd n = let v : ℕ = n % 2 ^ 8 in bit_or (v / 10 * 2 ^ 4) (v % 10) % 2 ^ 8

-- `if(d != 0) cpu.Z = false`, after X and C.
abbrev decimal_codes : Ccr → Bool → Bool → Ccr
decimal_codes f carry nonzero = record f {
  x = carry;
  c = carry;
  z = if nonzero then false else f.z;
}

-- do_abcd
unfoldable pub abcd : Ccr → ℕ → ℕ → Bool → Alu
abcd f v1 v2 old_x =
    let total : ℕ = bcd2bin v1 + bcd2bin v2 + to_num old_x in
    let carry = leb 100 total in
    let d : ℕ = if carry then total - 100 else total in
    record { ccr = decimal_codes f carry (not (d == 0)); value = bin2bcd d }

-- do_sbcd: d, which is `lifted` less `taken`, is an `int` and stays negative where 100 do not lift it
-- above zero; BIN2BCD takes it modulo 2 ^ 8.
unfoldable pub sbcd : Ccr → ℕ → ℕ → Bool → Alu
sbcd f v1 v2 old_x =
    let taken : ℕ = bcd2bin v2 + to_num old_x in
    let borrow = ltb (bcd2bin v1) taken in
    let lifted : ℕ = if borrow then bcd2bin v1 + 100 else bcd2bin v1 in
    record {
      ccr = decimal_codes f borrow (not (lifted == taken));
      value = bin2bcd (lifted + 2 ^ 8 - taken);
    }

-- do_nbcd: d is a uint8_t.
unfoldable pub nbcd : Ccr → ℕ → Bool → Alu
nbcd f v old_x =
    let d : ℕ = (100 + 2 ^ 8 - bcd2bin v - to_num old_x) % 2 ^ 8 in
    let carry = not (d == 100) in
    let rest : ℕ = if d == 100 then 0 else d in
    record { ccr = decimal_codes f carry (not (rest == 0)); value = bin2bcd rest }

-- do_pack: v and adj are 16-bit patterns.
unfoldable pub pack : ℕ → ℕ → ℕ
pack v adj =
    let d : ℕ = (v + adj) % 2 ^ 16 in bit_or (bit_and d 0xf) (bit_and d 0xf00 / 2 ^ 4) % 2 ^ 8

-- do_unpk: the sum of two `int16_t`, returned as a uint16_t.
unfoldable pub unpk : ℕ → ℕ → ℕ
unpk v adj = let d : ℕ = bit_or (bit_and v 0xf0 * 2 ^ 4) (bit_and v 0xf) in (d + adj) % 2 ^ 16
