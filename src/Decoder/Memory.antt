-- ===== src/Decoder/Memory.antt =====
-- src/cpu/op.cc, init_run_table: its loop over the operands in memory.
use newmacemu.Common.{List, [], ◌∷◌, byte, long, word, ◌&&◌, ◌||◌, leb, ltb}
use newmacemu.Instruction.{by_immediate, by_register, in_memory}
use newmacemu.Instruction.Shifts.{arithmetic, extended, logical, plain}
use newmacemu.Decoder.{
  Loop, loop, Rule, ◌at◌for◌, oct, add_to_ea, and_to_ea, bchg_ea, bclr_ea, bfchg, bfclr, bfexts,
  bfextu, bfffo, bfins, bfset, bftst, bset_ea, btst_ea, cas_ea, cmp2_chk2, jmp, jsr, lea, left_ea,
  load_base, load_incr, moves, or_to_ea, pea, right_ea, scc_ea, store_base, store_decr, sub_to_ea,
}

abbrev memory : Loop
memory = loop 0 6 (oct 20) (oct 74)

abbrev incremented : Loop
incremented = loop 0 6 (oct 30) (oct 40)

abbrev decremented : Loop
decremented = loop 0 6 (oct 40) (oct 50)

-- `ea < 030 || ea >= 050` in the loop from 020 to 074.
abbrev control : Loop
control = record {
  shift = 0;
  width = 6;
  takes = λ ea. leb (oct 20) ea && ltb ea (oct 30) || leb (oct 50) ea && ltb ea (oct 74);
}

abbrev alterable : Loop
alterable = loop 0 6 (oct 20) (oct 72)

abbrev d : Loop
d = loop 9 3 0 8

abbrev c : Loop
c = loop 8 4 0 16

unfoldable pub memory_rules : List Rule
memory_rules =
    (load_incr word at oct 46200 for incremented ∷ [])
    ∷ (load_incr long at oct 46300 for incremented ∷ [])
    ∷ (store_decr word at oct 44200 for decremented ∷ [])
    ∷ (store_decr long at oct 44300 for decremented ∷ [])
    ∷ (cmp2_chk2 byte at oct 300 for control ∷ [])
    ∷ (cmp2_chk2 word at oct 1300 for control ∷ [])
    ∷ (cmp2_chk2 long at oct 2300 for control ∷ [])
    ∷ (pea at oct 44100 for control ∷ [])
    ∷ (store_base word at oct 44200 for control ∷ [])
    ∷ (store_base long at oct 44300 for control ∷ [])
    ∷ (load_base word at oct 46200 for control ∷ [])
    ∷ (load_base long at oct 46300 for control ∷ [])
    ∷ (jsr at oct 47200 for control ∷ [])
    ∷ (jmp at oct 47300 for control ∷ [])
    ∷ (bftst in_memory at oct 164300 for control ∷ [])
    ∷ (bfchg in_memory at oct 165300 for control ∷ [])
    ∷ (bfclr in_memory at oct 166300 for control ∷ [])
    ∷ (bfset in_memory at oct 167300 for control ∷ [])
    ∷ (bfextu in_memory at oct 164700 for control ∷ [])
    ∷ (bfexts in_memory at oct 165700 for control ∷ [])
    ∷ (bfffo in_memory at oct 166700 for control ∷ [])
    ∷ (bfins in_memory at oct 167700 for control ∷ [])
    ∷ (lea at oct 40700 for d ∷ control ∷ [])
    ∷ (btst_ea in_memory by_immediate at oct 4000 for memory ∷ [])
    ∷ (bchg_ea in_memory by_immediate at oct 4100 for memory ∷ [])
    ∷ (bclr_ea in_memory by_immediate at oct 4200 for memory ∷ [])
    ∷ (bset_ea in_memory by_immediate at oct 4300 for memory ∷ [])
    ∷ (cas_ea byte at oct 5300 for memory ∷ [])
    ∷ (cas_ea word at oct 6300 for memory ∷ [])
    ∷ (moves byte at oct 7000 for memory ∷ [])
    ∷ (moves word at oct 7100 for memory ∷ [])
    ∷ (moves long at oct 7200 for memory ∷ [])
    ∷ (cas_ea long at oct 7300 for memory ∷ [])
    ∷ (right_ea arithmetic at oct 160300 for memory ∷ [])
    ∷ (right_ea logical at oct 161300 for memory ∷ [])
    ∷ (right_ea extended at oct 162300 for memory ∷ [])
    ∷ (right_ea plain at oct 163300 for memory ∷ [])
    ∷ (left_ea arithmetic at oct 160700 for memory ∷ [])
    ∷ (left_ea logical at oct 161700 for memory ∷ [])
    ∷ (left_ea extended at oct 162700 for memory ∷ [])
    ∷ (left_ea plain at oct 163700 for memory ∷ [])
    ∷ (btst_ea in_memory by_register at oct 400 for d ∷ memory ∷ [])
    ∷ (bchg_ea in_memory by_register at oct 500 for d ∷ memory ∷ [])
    ∷ (bclr_ea in_memory by_register at oct 600 for d ∷ memory ∷ [])
    ∷ (bset_ea in_memory by_register at oct 700 for d ∷ memory ∷ [])
    ∷ (or_to_ea byte at oct 100400 for d ∷ memory ∷ [])
    ∷ (or_to_ea word at oct 100500 for d ∷ memory ∷ [])
    ∷ (or_to_ea long at oct 100600 for d ∷ memory ∷ [])
    ∷ (sub_to_ea byte at oct 110400 for d ∷ memory ∷ [])
    ∷ (sub_to_ea word at oct 110500 for d ∷ memory ∷ [])
    ∷ (sub_to_ea long at oct 110600 for d ∷ memory ∷ [])
    ∷ (and_to_ea byte at oct 140400 for d ∷ memory ∷ [])
    ∷ (and_to_ea word at oct 140500 for d ∷ memory ∷ [])
    ∷ (and_to_ea long at oct 140600 for d ∷ memory ∷ [])
    ∷ (add_to_ea byte at oct 150400 for d ∷ memory ∷ [])
    ∷ (add_to_ea word at oct 150500 for d ∷ memory ∷ [])
    ∷ (add_to_ea long at oct 150600 for d ∷ memory ∷ [])
    ∷ (scc_ea at oct 50300 for c ∷ alterable ∷ [])
    ∷ []
