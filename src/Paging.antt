-- ===== src/Paging.antt =====
-- src/cpu/68040_mmu.cc, its first part: the transparent translation registers and the caches' lines,
-- with mmu_result of include/mmu.hpp. Addresses are page numbers, without their low 12 bits.
pub mod Search
pub mod Flush
pub mod Handlers
pub mod Registers
pub mod Stale
pub mod Flushed
pub mod Erased
pub mod Control
pub mod Flat
pub mod Windows
use newmacemu.Common.{
  ℕ, ◌+◌, ◌-◌, ◌*◌, ◌/◌, ◌%◌, ◌^◌, Bool, true, false, not, ◌&&◌, ◌||◌, bit_and, bit_or, bit, to_num,
  not32, ◌==◌, if◌then◌else◌,
}
use newmacemu.Machine.{Machine, Ttr, AtcEntry, Paging}

-- mmu_result.
pub record MmuResult : Type 0 where
  pub paddr : ℕ
  pub ux : ℕ
  pub cm : ℕ
  pub r : Bool
  pub t : Bool
  pub w : Bool
  pub m : Bool
  pub s : Bool
  pub g : Bool
  pub b : Bool

-- `mmu_result re;`
abbrev pub no_result : MmuResult
no_result = record {
  paddr = 0;
  ux = 0;
  cm = 0;
  r = false;
  t = false;
  w = false;
  m = false;
  s = false;
  g = false;
  b = false;
}

-- mmu_result::value.
unfoldable pub value : MmuResult → ℕ
value re =
    let low = bit_or (bit_or (to_num re.r) (to_num re.t * 2)) (to_num re.w * 2 ^ 2) in
    let middle =
      bit_or (bit_or (bit_or low (to_num re.m * 2 ^ 4)) (re.cm * 2 ^ 5)) (to_num re.s * 2 ^ 7) in
    let high =
      bit_or (bit_or (bit_or middle (re.ux * 2 ^ 8)) (to_num re.g * 2 ^ 10))
        (to_num re.b * 2 ^ 11) in
    bit_or high (re.paddr * 2 ^ 12 % 2 ^ 32)

unfoldable pub get_ttr : Ttr → ℕ
get_ttr x =
    let masks = bit_or (x.logic_base * 2 ^ 24) (x.logic_mask * 2 ^ 16) in
    let modes = bit_or (bit_or masks (to_num x.e * 2 ^ 15)) (x.s * 2 ^ 13) in
    bit_or (bit_or (bit_or modes (x.u * 2 ^ 8)) (x.cm * 2 ^ 5)) (to_num x.w * 2 ^ 2)

-- Set_TTR_t: every field is written.
unfoldable pub set_ttr : ℕ → Ttr
set_ttr v = record {
  logic_base = bit_and (v / 2 ^ 24) 0xff;
  logic_mask = bit_and (v / 2 ^ 16) 0xff;
  e = bit v 15;
  s = bit_and (v / 2 ^ 13) 3;
  u = bit_and (v / 2 ^ 8) 3;
  cm = bit_and (v / 2 ^ 5) 3;
  w = bit v 2;
}

-- Does S of the register exclude the access?
abbrev pub wrong_mode : Ttr → Bool → Bool
wrong_mode x sys = x.s == 0 && sys || x.s == 1 && not sys

-- The comparison of the address's top byte, but for the masked bits.
abbrev pub in_window : Ttr → ℕ → Bool
in_window x addr =
    bit_and (addr / 2 ^ 12 % 2 ^ 8) (not32 x.logic_mask)
    == bit_and x.logic_base (not32 x.logic_mask)

unfoldable pub test_ttr : Ttr → ℕ → Bool → MmuResult
test_ttr x addr sys =
    if not x.e
    then no_result
    else if wrong_mode x sys
    then no_result
    else if in_window x addr
    then record no_result { r = true; t = true; w = x.w; paddr = addr }
    else no_result

-- The two registers in turn.
unfoldable pub ptest_ttr : Paging → ℕ → Bool → Bool → MmuResult
unfolding test_ttr
ptest_ttr p addr sys code =
    let ttrp = if code then p.ittr else p.dttr in
    let first = test_ttr (ttrp 0) addr sys in
    let second = test_ttr (ttrp 1) addr sys in
    if first.r then first else if second.r then second else no_result

-- `code ? i_atc[sys] : d_atc[sys]`, its line for an address, and the caches with one line changed.
abbrev pub line_of : Paging → Bool → Bool → ℕ → AtcEntry
line_of p code sys addr = if code then p.i_atc sys (addr % 16) else p.d_atc sys (addr % 16)

abbrev pub same_set : Bool → Bool → Bool
same_set a b = if a then b else not b

abbrev pub put_line : Bool → Bool → ℕ → AtcEntry → Paging → Paging
put_line code sys addr e p =
    let put = λ (atc : Bool → ℕ → AtcEntry) (other : Bool) (k : ℕ).
      if same_set other sys && k == addr % 16 then e else atc other k in
    if code then record p { i_atc = put p.i_atc } else record p { d_atc = put p.d_atc }
