-- ===== src/Decoder/Shifting.antt =====
-- src/cpu/op.cc, init_run_table: the shifts and rotations of data registers, and MOVE16.
use newmacemu.Common.{List, [], ◌∷◌, byte, long, word}
use newmacemu.Instruction.{by_immediate, by_register}
use newmacemu.Instruction.Shifts.{arithmetic, extended, logical, plain}
use newmacemu.Decoder.{
  Loop, loop, Rule, ◌at◌for◌, oct, left_d, move16_base_imm, move16_imm_base, move16_imm_inc,
  move16_inc_imm, move16_inc_inc, right_d,
}

abbrev i : Loop
i = loop 0 3 0 8

abbrev d : Loop
d = loop 9 3 0 8

unfoldable pub shift_rules : List Rule
shift_rules =
    (right_d arithmetic byte by_immediate at oct 160000 for d ∷ i ∷ [])
    ∷ (right_d logical byte by_immediate at oct 160010 for d ∷ i ∷ [])
    ∷ (right_d extended byte by_immediate at oct 160020 for d ∷ i ∷ [])
    ∷ (right_d plain byte by_immediate at oct 160030 for d ∷ i ∷ [])
    ∷ (right_d arithmetic byte by_register at oct 160040 for d ∷ i ∷ [])
    ∷ (right_d logical byte by_register at oct 160050 for d ∷ i ∷ [])
    ∷ (right_d extended byte by_register at oct 160060 for d ∷ i ∷ [])
    ∷ (right_d plain byte by_register at oct 160070 for d ∷ i ∷ [])
    ∷ (right_d arithmetic word by_immediate at oct 160100 for d ∷ i ∷ [])
    ∷ (right_d logical word by_immediate at oct 160110 for d ∷ i ∷ [])
    ∷ (right_d extended word by_immediate at oct 160120 for d ∷ i ∷ [])
    ∷ (right_d plain word by_immediate at oct 160130 for d ∷ i ∷ [])
    ∷ (right_d arithmetic word by_register at oct 160140 for d ∷ i ∷ [])
    ∷ (right_d logical word by_register at oct 160150 for d ∷ i ∷ [])
    ∷ (right_d extended word by_register at oct 160160 for d ∷ i ∷ [])
    ∷ (right_d plain word by_register at oct 160170 for d ∷ i ∷ [])
    ∷ (right_d arithmetic long by_immediate at oct 160200 for d ∷ i ∷ [])
    ∷ (right_d logical long by_immediate at oct 160210 for d ∷ i ∷ [])
    ∷ (right_d extended long by_immediate at oct 160220 for d ∷ i ∷ [])
    ∷ (right_d plain long by_immediate at oct 160230 for d ∷ i ∷ [])
    ∷ (right_d arithmetic long by_register at oct 160240 for d ∷ i ∷ [])
    ∷ (right_d logical long by_register at oct 160250 for d ∷ i ∷ [])
    ∷ (right_d extended long by_register at oct 160260 for d ∷ i ∷ [])
    ∷ (right_d plain long by_register at oct 160270 for d ∷ i ∷ [])
    ∷ (left_d arithmetic byte by_immediate at oct 160400 for d ∷ i ∷ [])
    ∷ (left_d logical byte by_immediate at oct 160410 for d ∷ i ∷ [])
    ∷ (left_d extended byte by_immediate at oct 160420 for d ∷ i ∷ [])
    ∷ (left_d plain byte by_immediate at oct 160430 for d ∷ i ∷ [])
    ∷ (left_d arithmetic byte by_register at oct 160440 for d ∷ i ∷ [])
    ∷ (left_d logical byte by_register at oct 160450 for d ∷ i ∷ [])
    ∷ (left_d extended byte by_register at oct 160460 for d ∷ i ∷ [])
    ∷ (left_d plain byte by_register at oct 160470 for d ∷ i ∷ [])
    ∷ (left_d arithmetic word by_immediate at oct 160500 for d ∷ i ∷ [])
    ∷ (left_d logical word by_immediate at oct 160510 for d ∷ i ∷ [])
    ∷ (left_d extended word by_immediate at oct 160520 for d ∷ i ∷ [])
    ∷ (left_d plain word by_immediate at oct 160530 for d ∷ i ∷ [])
    ∷ (left_d arithmetic word by_register at oct 160540 for d ∷ i ∷ [])
    ∷ (left_d logical word by_register at oct 160550 for d ∷ i ∷ [])
    ∷ (left_d extended word by_register at oct 160560 for d ∷ i ∷ [])
    ∷ (left_d plain word by_register at oct 160570 for d ∷ i ∷ [])
    ∷ (left_d arithmetic long by_immediate at oct 160600 for d ∷ i ∷ [])
    ∷ (left_d logical long by_immediate at oct 160610 for d ∷ i ∷ [])
    ∷ (left_d extended long by_immediate at oct 160620 for d ∷ i ∷ [])
    ∷ (left_d plain long by_immediate at oct 160630 for d ∷ i ∷ [])
    ∷ (left_d arithmetic long by_register at oct 160640 for d ∷ i ∷ [])
    ∷ (left_d logical long by_register at oct 160650 for d ∷ i ∷ [])
    ∷ (left_d extended long by_register at oct 160660 for d ∷ i ∷ [])
    ∷ (left_d plain long by_register at oct 160670 for d ∷ i ∷ [])
    ∷ (move16_inc_imm at oct 173000 for i ∷ [])
    ∷ (move16_imm_inc at oct 173010 for i ∷ [])
    ∷ (move16_base_imm at oct 173020 for i ∷ [])
    ∷ (move16_imm_base at oct 173030 for i ∷ [])
    ∷ (move16_inc_inc at oct 173040 for i ∷ [])
    ∷ []
