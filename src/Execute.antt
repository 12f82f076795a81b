-- ===== src/Execute.antt =====
-- What an instruction does: the handler that init_run_table names, called with its opcode.
pub mod Refused
use newmacemu.Common.{ℕ, Bool, Option, none, some, Size}
use newmacemu.Machine.{Machine, M, ◌>>=◌, ◌>>◌, pure}
use newmacemu.Bus.{Devices}
use newmacemu.Memory.{Mmu}
use newmacemu.Paging.Handlers.{MmuInstruction, mmu_op}
use newmacemu.Instruction.Immediate.{
  addi, andi, andi_b_ccr, andi_w_sr, cmpi, eori, eori_b_ccr, eori_w_sr, ori, ori_b_ccr, ori_w_sr,
  subi,
}
use newmacemu.Instruction.Bits.{bchg_ea, bclr_ea, bset_ea, btst_b_imm, btst_ea, cmp2_chk2}
use newmacemu.Instruction.Transfer.{
  cas2_ea, cas_ea, exg_an, exg_da, exg_dn, lea, move, move16_base_imm, move16_imm_base,
  move16_imm_inc, move16_inc_imm, move16_inc_inc, move_from_ccr, move_from_sr, move_from_usp,
  move_to_ccr, move_to_sr, move_to_usp, movea, movep_l_load, movep_l_store, movep_w_load,
  movep_w_store, moveq, moves,
}
use newmacemu.Instruction.Unary.{
  clr_ea, ext_l, ext_w, extb_l, nbcd_ea, neg_ea, negx_ea, not_ea, swap_halves, tas_ea, tst_ea,
}
use newmacemu.Instruction.Products.{
  chk_ea, div_l, divs_w_dn, divu_w_dn, mul_l, muls_w_dn, mulu_w_dn,
}
use newmacemu.Instruction.Binary.{
  add_to_dn, add_to_ea, adda, addq, addq_an, and_to_dn, and_to_ea, cmp_dn, cmpa, eor, or_to_dn,
  or_to_ea, sub_to_dn, sub_to_ea, suba, subq, subq_an,
}
use newmacemu.Instruction.Paired.{abcd_op, addx_op, cmpm, pack_op, sbcd_op, subx_op, unpk_op}
use newmacemu.Instruction.Movem.{load_base, load_incr, store_base, store_decr}
use newmacemu.Instruction.Fields.{bfchg, bfclr, bfexts, bfextu, bfffo, bfins, bfset, bftst}
use newmacemu.Instruction.Shifts.{left_d, left_ea, right_d, right_ea}
use newmacemu.Instruction.Flow.{
  aline_ex, bkpt, fline_default, illegal, jmp, jsr, link_l, link_w, nop, pea, reset_op, rtd, rte,
  rtr, rts, stop, trap_op, trapv, unlk,
}
use newmacemu.Instruction.Conditions.{bxx, dbcc, scc_ea, trapcc}
use newmacemu.Decoder.{Instruction, FpuInstruction}

-- What the program has outside the models of CPU, memory and MMU: bus_reset (src/io.cc), the thread
-- controller `cpu.run`, whose `wait` shows what other threads do meanwhile, the addresses of rom_stops, the
-- functions of rom_funcs, which run in a thread of their own while the CPU waits, and the handlers
-- of the FPU.
pub record Host (Io : Type 0) : Type 0 where
  pub bus_reset : M Io (Unit {0})
  pub stop : M Io (Unit {0})
  pub wait : M Io (Unit {0})
  pub rom_stop : ℕ → Bool
  pub rom_function : ℕ → Option (M Io (Unit {0}))
  pub fpu_op : FpuInstruction → ℕ → M Io (Unit {0})

-- A handler that ends; RTE alone can run out of its fuel.
abbrev pub done : {Io : Type 0} → M Io (Unit {0}) → M Io (Option (Unit {0}))
done c = c >>= λ finished. pure (some tt)

module _ {Io : Type 0} (devices : Devices Io) (mmu : Mmu Io) (host : Host Io) (fuel : ℕ) where
  unfoldable pub execute : Instruction → ℕ → M Io (Option (Unit {0}))
  execute (Instruction.ori w) op = done (ori devices mmu w op)
  execute (Instruction.andi w) op = done (andi devices mmu w op)
  execute (Instruction.eori w) op = done (eori devices mmu w op)
  execute (Instruction.subi w) op = done (subi devices mmu w op)
  execute (Instruction.addi w) op = done (addi devices mmu w op)
  execute (Instruction.cmpi w) op = done (cmpi devices mmu w op)
  execute (Instruction.cmp2_chk2 w) op = done (cmp2_chk2 devices mmu w op)
  execute (Instruction.cas_ea w) op = done (cas_ea devices mmu w op)
  execute (Instruction.cas2_ea w) op = done (cas2_ea devices mmu w)
  execute (Instruction.moves w) op = done (moves devices mmu w op)
  execute (Instruction.move w) op = done (move devices mmu w op)
  execute (Instruction.movea w) op = done (movea devices mmu w op)
  execute (Instruction.negx_ea w) op = done (negx_ea devices mmu w op)
  execute (Instruction.clr_ea w) op = done (clr_ea devices mmu w op)
  execute (Instruction.neg_ea w) op = done (neg_ea devices mmu w op)
  execute (Instruction.not_ea w) op = done (not_ea devices mmu w op)
  execute (Instruction.tst_ea w) op = done (tst_ea devices mmu w op)
  execute (Instruction.chk_ea w) op = done (chk_ea devices mmu w op)
  execute (Instruction.addq w) op = done (addq devices mmu w op)
  execute (Instruction.subq w) op = done (subq devices mmu w op)
  execute (Instruction.or_to_dn w) op = done (or_to_dn devices mmu w op)
  execute (Instruction.and_to_dn w) op = done (and_to_dn devices mmu w op)
  execute (Instruction.sub_to_dn w) op = done (sub_to_dn devices mmu w op)
  execute (Instruction.add_to_dn w) op = done (add_to_dn devices mmu w op)
  execute (Instruction.or_to_ea w) op = done (or_to_ea devices mmu w op)
  execute (Instruction.and_to_ea w) op = done (and_to_ea devices mmu w op)
  execute (Instruction.sub_to_ea w) op = done (sub_to_ea devices mmu w op)
  execute (Instruction.add_to_ea w) op = done (add_to_ea devices mmu w op)
  execute (Instruction.eor w) op = done (eor devices mmu w op)
  execute (Instruction.cmp_dn w) op = done (cmp_dn devices mmu w op)
  execute (Instruction.cmpa w) op = done (cmpa devices mmu w op)
  execute (Instruction.suba w) op = done (suba devices mmu w op)
  execute (Instruction.adda w) op = done (adda devices mmu w op)
  execute (Instruction.cmpm w) op = done (cmpm devices mmu w op)
  execute (Instruction.store_decr w) op = done (store_decr devices mmu w op)
  execute (Instruction.store_base w) op = done (store_base devices mmu w op)
  execute (Instruction.load_incr w) op = done (load_incr devices mmu w op)
  execute (Instruction.load_base w) op = done (load_base devices mmu w op)
  execute (Instruction.bchg_ea form count) op = done (bchg_ea devices mmu form count op)
  execute (Instruction.bclr_ea form count) op = done (bclr_ea devices mmu form count op)
  execute (Instruction.bset_ea form count) op = done (bset_ea devices mmu form count op)
  execute (Instruction.btst_ea form count) op = done (btst_ea devices mmu form count op)
  execute (Instruction.btst_b_imm count) op = done (btst_b_imm devices mmu count op)
  execute (Instruction.subx_op w form) op = done (subx_op devices mmu w form op)
  execute (Instruction.addx_op w form) op = done (addx_op devices mmu w form op)
  execute (Instruction.sbcd_op form) op = done (sbcd_op devices mmu form op)
  execute (Instruction.abcd_op form) op = done (abcd_op devices mmu form op)
  execute (Instruction.pack_op form) op = done (pack_op devices mmu form op)
  execute (Instruction.unpk_op form) op = done (unpk_op devices mmu form op)
  execute (Instruction.bftst form) op = done (bftst devices mmu form op)
  execute (Instruction.bfchg form) op = done (bfchg devices mmu form op)
  execute (Instruction.bfclr form) op = done (bfclr devices mmu form op)
  execute (Instruction.bfset form) op = done (bfset devices mmu form op)
  execute (Instruction.bfextu form) op = done (bfextu devices mmu form op)
  execute (Instruction.bfexts form) op = done (bfexts devices mmu form op)
  execute (Instruction.bfffo form) op = done (bfffo devices mmu form op)
  execute (Instruction.bfins form) op = done (bfins devices mmu form op)
  execute (Instruction.right_d kind w count) op = done (right_d kind w count op)
  execute (Instruction.left_d kind w count) op = done (left_d kind w count op)
  execute (Instruction.right_ea kind) op = done (right_ea devices mmu kind op)
  execute (Instruction.left_ea kind) op = done (left_ea devices mmu kind op)
  execute Instruction.ori_b_ccr op = done (ori_b_ccr devices mmu)
  execute Instruction.ori_w_sr op = done (ori_w_sr devices mmu)
  execute Instruction.andi_b_ccr op = done (andi_b_ccr devices mmu)
  execute Instruction.andi_w_sr op = done (andi_w_sr devices mmu)
  execute Instruction.eori_b_ccr op = done (eori_b_ccr devices mmu)
  execute Instruction.eori_w_sr op = done (eori_w_sr devices mmu)
  execute Instruction.movep_w_load op = done (movep_w_load devices mmu op)
  execute Instruction.movep_l_load op = done (movep_l_load devices mmu op)
  execute Instruction.movep_w_store op = done (movep_w_store devices mmu op)
  execute Instruction.movep_l_store op = done (movep_l_store devices mmu op)
  execute Instruction.moveq op = done (moveq op)
  execute Instruction.exg_dn op = done (exg_dn op)
  execute Instruction.exg_an op = done (exg_an op)
  execute Instruction.exg_da op = done (exg_da op)
  execute Instruction.move_to_usp op = done (move_to_usp op)
  execute Instruction.move_from_usp op = done (move_from_usp op)
  execute Instruction.move_from_sr op = done (move_from_sr devices mmu op)
  execute Instruction.move_from_ccr op = done (move_from_ccr devices mmu op)
  execute Instruction.move_to_ccr op = done (move_to_ccr devices mmu op)
  execute Instruction.move_to_sr op = done (move_to_sr devices mmu op)
  execute Instruction.lea op = done (lea devices mmu op)
  execute Instruction.move16_base_imm op = done (move16_base_imm devices mmu op)
  execute Instruction.move16_imm_base op = done (move16_imm_base devices mmu op)
  execute Instruction.move16_inc_imm op = done (move16_inc_imm devices mmu op)
  execute Instruction.move16_imm_inc op = done (move16_imm_inc devices mmu op)
  execute Instruction.move16_inc_inc op = done (move16_inc_inc devices mmu op)
  execute Instruction.swap_halves op = done (swap_halves op)
  execute Instruction.ext_w op = done (ext_w op)
  execute Instruction.ext_l op = done (ext_l op)
  execute Instruction.extb_l op = done (extb_l op)
  execute Instruction.nbcd_ea op = done (nbcd_ea devices mmu op)
  execute Instruction.tas_ea op = done (tas_ea devices mmu op)
  execute Instruction.mul_l op = done (mul_l devices mmu op)
  execute Instruction.div_l op = done (div_l devices mmu op)
  execute Instruction.mulu_w_dn op = done (mulu_w_dn devices mmu op)
  execute Instruction.muls_w_dn op = done (muls_w_dn devices mmu op)
  execute Instruction.divu_w_dn op = done (divu_w_dn devices mmu op)
  execute Instruction.divs_w_dn op = done (divs_w_dn devices mmu op)
  execute Instruction.illegal op = done illegal
  execute Instruction.bkpt op = done bkpt
  execute Instruction.aline_ex op = done aline_ex
  execute Instruction.fline_default op = done fline_default
  execute Instruction.trap_op op = done (trap_op op)
  execute Instruction.trapv op = done trapv
  execute Instruction.nop op = done nop
  execute Instruction.reset_op op = done (reset_op host.bus_reset)
  execute Instruction.link_w op = done (link_w devices mmu op)
  execute Instruction.link_l op = done (link_l devices mmu op)
  execute Instruction.unlk op = done (unlk devices mmu op)
  execute Instruction.pea op = done (pea devices mmu op)
  execute Instruction.jsr op = done (jsr devices mmu op)
  execute Instruction.jmp op = done (jmp devices mmu op)
  execute Instruction.rtd op = done (rtd devices mmu)
  execute Instruction.rts op = done (rts devices mmu)
  execute Instruction.rtr op = done (rtr devices mmu)
  execute Instruction.rte op = rte devices mmu fuel
  execute Instruction.stop op = done (stop devices mmu (host.stop >> host.wait))
  execute Instruction.scc_ea op = done (scc_ea devices mmu op)
  execute Instruction.dbcc op = done (dbcc devices mmu op)
  execute Instruction.trapcc op = done (trapcc op)
  execute Instruction.bxx op = done (bxx devices mmu op)
  execute Instruction.addq_an op = done (addq_an op)
  execute Instruction.subq_an op = done (subq_an op)
  execute (Instruction.mmu i) op = done (mmu_op devices mmu i op)
  execute (Instruction.fpu i) op = done (host.fpu_op i op)
