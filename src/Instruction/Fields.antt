-- ===== src/Instruction/Fields.antt =====
-- src/cpu/op.cc: the bit field instructions, and get_bf_offset_width.
use newmacemu.Common.{ℕ, ◌/◌, ◌^◌, bit_and, bit, ◌==◌, if◌then◌else◌}
use newmacemu.Ccr.{Ccr, Alu}
use newmacemu.Bitfield.{bftst_d, bfchg_d, bfclr_d, bfset_d, bfextu_d, bfexts_d, bfffo_d, bfins_d}
use newmacemu.Bitfield.Memory.{bftst_m, bfchg_m, bfclr_m, bfset_m, bfextu_m, bfexts_m, bfffo_m}
use newmacemu.Bitfield.Insert.{bfins_m}
use newmacemu.Machine.{Machine, M, ◌>>=◌, pure, gets}
use newmacemu.Bus.{Devices}
use newmacemu.Memory.{Mmu}
use newmacemu.Fetch.{fetch}
use newmacemu.Instruction.{
  reg_of, Operand, on_register, in_memory, computed, flagged, data_of, set_d, address,
}

-- The offset and the width of get_bf_offset_width.
abbrev pub field_offset : {Io : Type 0} → ℕ → Machine Io → ℕ
field_offset extw m =
    if bit extw 11 then m.d (bit_and (extw / 2 ^ 6) 7) else bit_and (extw / 2 ^ 6) 0x1f

abbrev pub width_field : {Io : Type 0} → ℕ → Machine Io → ℕ
width_field extw m = if bit extw 5 then bit_and (m.d (bit_and extw 7)) 31 else bit_and extw 0x1f

unfoldable pub get_bf_offset_width : {Io : Type 0} → ℕ → Machine Io → ℕ × ℕ
get_bf_offset_width extw m =
    (field_offset extw m, if width_field extw m == 0 then 32 else width_field extw m)

-- `extw >> 12 & 7`.
abbrev field_register : ℕ → ℕ
field_register extw = bit_and (extw / 2 ^ 12) 7

module _ {Io : Type 0} (devices : Devices Io) (mmu : Mmu Io) where
  -- A field of `cpu.D[REG(op)]`, its value to the register that the extension word selects.
  abbrev from_register : (Ccr → ℕ → ℕ → ℕ → Alu) → (ℕ → ℕ) → ℕ → M Io (Unit {0})
  from_register f to op = do
    extw ← fetch devices mmu
    field ← gets (get_bf_offset_width extw)
    v ← data_of (reg_of op)
    r ← computed (λ flags. f flags v field.0 field.1)
    set_d (to extw) r

  -- A field in memory.
  abbrev of_memory : (ℕ → ℕ → ℕ → ℕ → M Io (Unit {0})) → ℕ → M Io (Unit {0})
  of_memory f op = do
    extw ← fetch devices mmu
    field ← gets (get_bf_offset_width extw)
    addr ← address devices mmu 0 op
    f extw addr field.0 field.1

  -- `cpu.D[dn] = ...` of a function on memory.
  abbrev fetched : (ℕ → ℕ → ℕ → M Io ℕ) → ℕ → ℕ → ℕ → ℕ → M Io (Unit {0})
  fetched f extw addr off width = do v ← f addr off width; set_d (field_register extw) v

  unfoldable pub bftst : Operand → ℕ → M Io (Unit {0})
  bftst on_register op = do
    extw ← fetch devices mmu
    field ← gets (get_bf_offset_width extw)
    v ← data_of (reg_of op)
    flagged (λ flags. (bftst_d flags v field.0 field.1).ccr)
  bftst in_memory op =
      of_memory (λ extw addr off width. bftst_m devices mmu addr off width >>= λ x. pure tt) op

  unfoldable pub bfchg : Operand → ℕ → M Io (Unit {0})
  bfchg on_register op = from_register bfchg_d (λ extw. reg_of op) op
  bfchg in_memory op = of_memory (λ extw. bfchg_m devices mmu) op

  unfoldable pub bfclr : Operand → ℕ → M Io (Unit {0})
  bfclr on_register op = from_register bfclr_d (λ extw. reg_of op) op
  bfclr in_memory op = of_memory (λ extw. bfclr_m devices mmu) op

  unfoldable pub bfset : Operand → ℕ → M Io (Unit {0})
  bfset on_register op = from_register bfset_d (λ extw. reg_of op) op
  bfset in_memory op = of_memory (λ extw. bfset_m devices mmu) op

  unfoldable pub bfextu : Operand → ℕ → M Io (Unit {0})
  bfextu on_register op = from_register bfextu_d field_register op
  bfextu in_memory op = of_memory (fetched (bfextu_m devices mmu)) op

  unfoldable pub bfexts : Operand → ℕ → M Io (Unit {0})
  bfexts on_register op = from_register bfexts_d field_register op
  bfexts in_memory op = of_memory (fetched (bfexts_m devices mmu)) op

  unfoldable pub bfffo : Operand → ℕ → M Io (Unit {0})
  bfffo on_register op = from_register bfffo_d field_register op
  bfffo in_memory op = of_memory (fetched (bfffo_m devices mmu)) op

  -- The inserted value is `cpu.D[dn]`.
  unfoldable pub bfins : Operand → ℕ → M Io (Unit {0})
  bfins on_register op = do
    extw ← fetch devices mmu
    field ← gets (get_bf_offset_width extw)
    old ← data_of (reg_of op)
    v ← data_of (field_register extw)
    r ← computed (λ flags. bfins_d flags old field.0 field.1 v)
    set_d (reg_of op) r
  bfins in_memory op =
      of_memory
        (λ extw addr off width.
          data_of (field_register extw) >>= λ v. bfins_m devices mmu addr off width v)
        op
