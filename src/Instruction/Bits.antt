-- ===== src/Instruction/Bits.antt =====
-- src/cpu/op.cc: CMP2 and CHK2, and the bit instructions BTST, BCHG, BCLR and BSET.
use newmacemu.Common.{ℕ, ◌/◌, ◌^◌, ◌&&◌, bit_and, bit, if◌then◌else◌, Size, byte, long, wrap}
use newmacemu.Ccr.{Ccr, Alu}
use newmacemu.Logic.{btst, bchg, bclr, bset}
use newmacemu.Compare.{cmp2, cmp2_signed}
use newmacemu.Machine.{chk_fail, ok, M, ◌>>=◌, pure, gets}
use newmacemu.Bus.{Devices}
use newmacemu.Memory.{Mmu}
use newmacemu.Memory.Access.{read_b, write_b}
use newmacemu.Fetch.{fetch}
use newmacemu.Status.{raise}
use newmacemu.EffectiveAddress.{immediate}
use newmacemu.Instruction.{
  reg_of, dn_of, Operand, on_register, in_memory, Count, by_immediate, by_register, computed,
  flagged, data_of, set_d, placed,
}

module _ {Io : Type 0} (devices : Devices Io) (mmu : Mmu Io) where
  abbrev register_number : ℕ → ℕ
  register_number nextop = bit_and (nextop / 2 ^ 12) 7

  -- The comparison: signed with an address register, else unsigned with a data register.
  abbrev range_compared : Size → ℕ → ℕ → M Io (Unit {0})
  range_compared w nextop addr m =
      if bit nextop 15
      then cmp2_signed devices mmu w (wrap w (m.a (register_number nextop))) addr m
      else cmp2 devices mmu w (wrap w (m.d (register_number nextop))) addr m

  unfoldable pub cmp2_chk2 : Size → ℕ → M Io (Unit {0})
  cmp2_chk2 w op = do
    nextop ← fetch devices mmu
    addr ← placed devices mmu w op
    compared ← range_compared w nextop addr
    λ m. if bit nextop 11 && m.ccr.c then raise chk_fail m else ok tt m

  -- `FETCH() & mask`, or `cpu.D[DN(op)] & mask`: reading an operand leaves `cpu.D` as it is.
  abbrev position : Count → ℕ → ℕ → M Io ℕ
  position by_immediate mask op = fetch devices mmu >>= λ v. pure (bit_and v mask)
  position by_register mask op = gets (λ m. bit_and (m.d (dn_of op)) mask)

  -- btst_l_i, btst_l_r, btst_b_i, btst_b_r.
  unfoldable pub btst_ea : Operand → Count → ℕ → M Io (Unit {0})
  btst_ea on_register count op = do
    pos ← position count 31 op
    v ← data_of (reg_of op)
    flagged (λ f. btst f v pos)
  btst_ea in_memory count op = do
    pos ← position count 7 op
    addr ← placed devices mmu byte op
    v ← read_b devices mmu addr
    flagged (λ f. btst f v pos)

  -- btst_b_i_imm, btst_b_r_imm.
  unfoldable pub btst_b_imm : Count → ℕ → M Io (Unit {0})
  btst_b_imm count op = do
    pos ← position count 7 op
    imm ← immediate devices mmu byte
    flagged (λ f. btst f imm pos)

  -- The bit of a register, or of a byte in memory, and its new value.
  abbrev bit_changed : (Size → Ccr → ℕ → ℕ → Alu) → Operand → Count → ℕ → M Io (Unit {0})
  bit_changed f on_register count op = do
    pos ← position count 31 op
    v ← data_of (reg_of op)
    r ← computed (λ flags. f long flags v pos)
    set_d (reg_of op) r
  bit_changed f in_memory count op = do
    pos ← position count 7 op
    addr ← placed devices mmu byte op
    v ← read_b devices mmu addr
    r ← computed (λ flags. f byte flags v pos)
    write_b devices mmu addr r

  unfoldable pub bchg_ea : Operand → Count → ℕ → M Io (Unit {0})
  bchg_ea = bit_changed bchg

  unfoldable pub bclr_ea : Operand → Count → ℕ → M Io (Unit {0})
  bclr_ea = bit_changed bclr

  unfoldable pub bset_ea : Operand → Count → ℕ → M Io (Unit {0})
  bset_ea = bit_changed bset
