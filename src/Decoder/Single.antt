-- ===== src/Decoder/Single.antt =====
-- src/cpu/op.cc, init_run_table: the opcodes that stand alone, the branches and the lines A and F, and MOVE16.
use newmacemu.Common.{List, [], ◌∷◌, byte, long, word}
use newmacemu.Instruction.{by_immediate, by_register}
use newmacemu.Paging.Handlers.{movec_from_cr, movec_to_cr}
use newmacemu.Decoder.{
  Loop, loop, Rule, ◌at◌for◌, oct, aline_ex, andi_b_ccr, andi_w_sr, btst_b_imm, bxx, cas2_ea,
  eori_b_ccr, eori_w_sr, fline_default, illegal, link_w, mmu, move, move_from_usp, move_to_ccr,
  move_to_sr, move_to_usp, movea, moveq, nop, ori_b_ccr, ori_w_sr, reset_op, rtd, rte, rtr, rts,
  stop, trapcc, trapv, unlk,
}

abbrev i : Loop
i = loop 0 3 0 8

abbrev d : Loop
d = loop 9 3 0 8

abbrev k : Loop
k = loop 6 3 2 8

abbrev c : Loop
c = loop 8 4 0 16

abbrev low_byte : Loop
low_byte = loop 0 8 0 0x100

abbrev v : Loop
v = loop 0 12 0 0x1000

unfoldable pub single_rules : List Rule
single_rules =
    (ori_b_ccr at oct 74 for [])
    ∷ (ori_w_sr at oct 174 for [])
    ∷ (andi_b_ccr at oct 1074 for [])
    ∷ (andi_w_sr at oct 1174 for [])
    ∷ (btst_b_imm by_immediate at oct 4074 for [])
    ∷ (eori_b_ccr at oct 5074 for [])
    ∷ (eori_w_sr at oct 5174 for [])
    ∷ (cas2_ea word at oct 6374 for [])
    ∷ (cas2_ea long at oct 7374 for [])
    ∷ (move_to_ccr at oct 42374 for [])
    ∷ (move_to_sr at oct 43374 for [])
    ∷ (illegal at oct 45374 for [])
    ∷ (btst_b_imm by_register at oct 474 for d ∷ [])
    ∷ (move byte at oct 20074 for d ∷ [])
    ∷ (move long at oct 20074 for d ∷ [])
    ∷ (move word at oct 30074 for d ∷ [])
    ∷ (movea long at oct 20174 for d ∷ [])
    ∷ (movea word at oct 30174 for d ∷ [])
    ∷ (move byte at oct 20074 for d ∷ k ∷ [])
    ∷ (move long at oct 20074 for d ∷ k ∷ [])
    ∷ (move word at oct 30074 for d ∷ k ∷ [])
    ∷ (link_w at oct 47120 for i ∷ [])
    ∷ (unlk at oct 47130 for i ∷ [])
    ∷ (move_to_usp at oct 47140 for i ∷ [])
    ∷ (move_from_usp at oct 47150 for i ∷ [])
    ∷ (moveq at oct 70000 for d ∷ low_byte ∷ [])
    ∷ (reset_op at oct 47160 for [])
    ∷ (nop at oct 47161 for [])
    ∷ (stop at oct 47162 for [])
    ∷ (rte at oct 47163 for [])
    ∷ (rtd at oct 47164 for [])
    ∷ (rts at oct 47165 for [])
    ∷ (trapv at oct 47166 for [])
    ∷ (rtr at oct 47167 for [])
    ∷ (mmu movec_from_cr at oct 47172 for [])
    ∷ (mmu movec_to_cr at oct 47173 for [])
    ∷ (trapcc at oct 50372 for c ∷ [])
    ∷ (trapcc at oct 50373 for c ∷ [])
    ∷ (trapcc at oct 50374 for c ∷ [])
    ∷ (bxx at oct 60000 for v ∷ [])
    ∷ (aline_ex at oct 120000 for v ∷ [])
    ∷ (fline_default at oct 170000 for v ∷ [])
    ∷ []
