-- ===== src/Paging/Flush.antt =====
-- src/cpu/68040_mmu.cc, its third part: the pflush functions and the instruction cache, which is the
-- table of compiled code.
use newmacemu.Common.{
  ℕ, zero, suc, ◌+◌, ◌-◌, ◌/◌, ◌%◌, ◌^◌, Bool, true, false, not, ◌&&◌, ◌||◌, bit_and, not32, ltb,
  ◌==◌, if◌then◌else◌,
}
use newmacemu.Machine.{AtcEntry, Paging}
use newmacemu.Paging.{line_of, put_line}

-- `cpu.DFC == 1 || cpu.DFC == 2`.
abbrev pub user_code : ℕ → Bool
user_code dfc = dfc == 1 || dfc == 2

-- `if(...) atc[sys][addr & 0xf].V = false`.
abbrev pub drop_line : (AtcEntry → Bool) → Bool → Bool → ℕ → Paging → Paging
drop_line test code sys addr p =
    let e = line_of p code sys addr in
    if test e then put_line code sys addr (record e { v = false }) p else p

-- The data and the code line of one mode.
abbrev pub drop_pair : (AtcEntry → Bool) → Bool → ℕ → Paging → Paging
drop_pair test sys addr p = drop_line test true sys addr (drop_line test false sys addr p)

-- The common form of the pflush functions on one line: supervisor lines always, user lines by DFC.
abbrev pub drop_both : (AtcEntry → Bool) → ℕ → ℕ → Paging → Paging
drop_both test dfc addr p =
    let p1 = drop_pair test true addr p in
    if user_code dfc then drop_pair test false addr p1 else p1

unfoldable pub pflushn_impl : ℕ → ℕ → Paging → Paging
pflushn_impl dfc addr = drop_both (λ e. e.laddr == addr && not e.g) dfc addr

unfoldable pub pflush_impl : ℕ → ℕ → Paging → Paging
pflush_impl dfc addr = drop_both (λ e. e.laddr == addr) dfc addr

-- `for(int j = 0; j < 16; ++j)`, the rounds left counted.
unfoldable pub drop_all : (AtcEntry → Bool) → ℕ → ℕ → Paging → Paging
drop_all test dfc zero p = p
drop_all test dfc (suc rounds) p = drop_all test dfc rounds (drop_both test dfc (16 - suc rounds) p)

unfoldable pub pflushan_impl : ℕ → Paging → Paging
pflushan_impl dfc = drop_all (λ e. not e.g) dfc 16

unfoldable pub pflusha_impl : ℕ → Paging → Paging
pflusha_impl dfc = drop_all (λ e. true) dfc 16

-- page_size.
abbrev pub page_size : Paging → ℕ
page_size p = if p.tcr_p then 0x2000 else 0x1000

-- `for(uint32_t b = base; b < end; b += 2) jit_tables.erase(b)`; the fuel bounds the rounds.
unfoldable pub erase_until : ℕ → ℕ → ℕ → (ℕ → Bool) → ℕ → Bool
erase_until zero b end table = table
erase_until (suc fuel) b end table =
    let rest = erase_until fuel ((b + 2) % 2 ^ 32) end (λ j. if j == b then false else table j) in
    if ltb b end then rest else table

-- `base + size` wraps to 32 bits.
abbrev pub erase_block : ℕ → ℕ → Paging → Paging
erase_block base size p = record p {
  jit_tables = erase_until (size / 2 + 1) base ((base + size) % 2 ^ 32) p.jit_tables;
}

-- cinvl_i and cpushl_i.
unfoldable pub cinvl_i : ℕ → Paging → Paging
cinvl_i base = erase_block (bit_and base (not32 0xf)) 0x10

-- cinvp_i and cpushp_i.
unfoldable pub cinvp_i : ℕ → Paging → Paging
cinvp_i base p = erase_block (bit_and base (not32 (page_size p - 1))) (page_size p) p

-- cinva_i and cpusha_i.
unfoldable pub cinva_i : Paging → Paging
cinva_i p = record p { jit_tables = λ addr. false }
