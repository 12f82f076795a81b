-- ===== src/Decoder/Forms.antt =====
-- src/cpu/op.cc, init_run_table: its loops over the data registers and the address registers.
use newmacemu.Common.{List, [], ◌∷◌, byte, long, word}
use newmacemu.Instruction.{by_immediate, by_register, in_memory, on_register}
use newmacemu.Decoder.{
  Loop, loop, Rule, ◌at◌for◌, oct, abcd_op, addq_an, addx_op, bchg_ea, bclr_ea, bfchg, bfclr,
  bfexts, bfextu, bfffo, bfins, bfset, bftst, bkpt, bset_ea, btst_ea, cmpm, dbcc, exg_an, exg_da,
  exg_dn, ext_l, ext_w, extb_l, link_l, movep_l_load, movep_l_store, movep_w_load, movep_w_store,
  pack_op, sbcd_op, scc_ea, subq_an, subx_op, swap_halves, trap_op, unpk_op,
}

abbrev i : Loop
i = loop 0 3 0 8

abbrev d : Loop
d = loop 9 3 0 8

abbrev c : Loop
c = loop 8 4 0 16

unfoldable pub form_rules : List Rule
form_rules =
    (btst_ea on_register by_immediate at oct 4000 for i ∷ [])
    ∷ (bchg_ea on_register by_immediate at oct 4100 for i ∷ [])
    ∷ (bclr_ea on_register by_immediate at oct 4200 for i ∷ [])
    ∷ (bset_ea on_register by_immediate at oct 4300 for i ∷ [])
    ∷ (swap_halves at oct 44100 for i ∷ [])
    ∷ (ext_w at oct 44200 for i ∷ [])
    ∷ (ext_l at oct 44300 for i ∷ [])
    ∷ (extb_l at oct 44700 for i ∷ [])
    ∷ (trap_op at oct 47100 for i ∷ [])
    ∷ (bftst on_register at oct 164300 for i ∷ [])
    ∷ (bfchg on_register at oct 165300 for i ∷ [])
    ∷ (bfclr on_register at oct 166300 for i ∷ [])
    ∷ (bfset on_register at oct 167300 for i ∷ [])
    ∷ (bfextu on_register at oct 164700 for i ∷ [])
    ∷ (bfexts on_register at oct 165700 for i ∷ [])
    ∷ (bfffo on_register at oct 166700 for i ∷ [])
    ∷ (bfins on_register at oct 167700 for i ∷ [])
    ∷ (btst_ea on_register by_register at oct 400 for d ∷ i ∷ [])
    ∷ (bchg_ea on_register by_register at oct 500 for d ∷ i ∷ [])
    ∷ (bclr_ea on_register by_register at oct 600 for d ∷ i ∷ [])
    ∷ (bset_ea on_register by_register at oct 700 for d ∷ i ∷ [])
    ∷ (sbcd_op on_register at oct 100400 for d ∷ i ∷ [])
    ∷ (pack_op on_register at oct 100500 for d ∷ i ∷ [])
    ∷ (unpk_op on_register at oct 100600 for d ∷ i ∷ [])
    ∷ (subx_op byte on_register at oct 110400 for d ∷ i ∷ [])
    ∷ (subx_op word on_register at oct 110500 for d ∷ i ∷ [])
    ∷ (subx_op long on_register at oct 110600 for d ∷ i ∷ [])
    ∷ (abcd_op on_register at oct 140400 for d ∷ i ∷ [])
    ∷ (exg_dn at oct 140500 for d ∷ i ∷ [])
    ∷ (addx_op byte on_register at oct 150400 for d ∷ i ∷ [])
    ∷ (addx_op word on_register at oct 150500 for d ∷ i ∷ [])
    ∷ (addx_op long on_register at oct 150600 for d ∷ i ∷ [])
    ∷ (scc_ea at oct 50300 for c ∷ i ∷ [])
    ∷ (movep_w_load at oct 410 for d ∷ i ∷ [])
    ∷ (movep_l_load at oct 510 for d ∷ i ∷ [])
    ∷ (movep_w_store at oct 610 for d ∷ i ∷ [])
    ∷ (movep_l_store at oct 710 for d ∷ i ∷ [])
    ∷ (addq_an at oct 50110 for d ∷ i ∷ [])
    ∷ (addq_an at oct 50210 for d ∷ i ∷ [])
    ∷ (subq_an at oct 50510 for d ∷ i ∷ [])
    ∷ (subq_an at oct 50610 for d ∷ i ∷ [])
    ∷ (sbcd_op in_memory at oct 100410 for d ∷ i ∷ [])
    ∷ (pack_op in_memory at oct 100510 for d ∷ i ∷ [])
    ∷ (unpk_op in_memory at oct 100610 for d ∷ i ∷ [])
    ∷ (subx_op byte in_memory at oct 110410 for d ∷ i ∷ [])
    ∷ (subx_op word in_memory at oct 110510 for d ∷ i ∷ [])
    ∷ (subx_op long in_memory at oct 110610 for d ∷ i ∷ [])
    ∷ (cmpm byte at oct 130410 for d ∷ i ∷ [])
    ∷ (cmpm word at oct 130510 for d ∷ i ∷ [])
    ∷ (cmpm long at oct 130610 for d ∷ i ∷ [])
    ∷ (abcd_op in_memory at oct 140410 for d ∷ i ∷ [])
    ∷ (exg_an at oct 140510 for d ∷ i ∷ [])
    ∷ (exg_da at oct 140610 for d ∷ i ∷ [])
    ∷ (addx_op byte in_memory at oct 150410 for d ∷ i ∷ [])
    ∷ (addx_op word in_memory at oct 150510 for d ∷ i ∷ [])
    ∷ (addx_op long in_memory at oct 150610 for d ∷ i ∷ [])
    ∷ (link_l at oct 44010 for i ∷ [])
    ∷ (bkpt at oct 44110 for i ∷ [])
    ∷ (trap_op at oct 47110 for i ∷ [])
    ∷ (dbcc at oct 50310 for c ∷ i ∷ [])
    ∷ []
