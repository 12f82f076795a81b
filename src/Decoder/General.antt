-- ===== src/Decoder/General.antt =====
-- src/cpu/op.cc, init_run_table: its first loop, over every mode and register of an operand.
use newmacemu.Common.{List, [], ◌∷◌, byte, long, word}
use newmacemu.Decoder.{
  Loop, loop, Rule, ◌at◌for◌, oct, add_to_dn, adda, addi, addq, and_to_dn, andi, chk_ea, clr_ea,
  cmp_dn, cmpa, cmpi, div_l, divs_w_dn, divu_w_dn, eor, eori, move, move_from_ccr, move_from_sr,
  move_to_ccr, move_to_sr, movea, mul_l, muls_w_dn, mulu_w_dn, nbcd_ea, neg_ea, negx_ea, not_ea,
  or_to_dn, ori, sub_to_dn, suba, subi, subq, tas_ea, tst_ea,
}

abbrev any_ea : Loop
any_ea = loop 0 6 0 (oct 75)

abbrev d : Loop
d = loop 9 3 0 8

abbrev k : Loop
k = loop 6 3 2 8

unfoldable pub general_rules : List Rule
general_rules =
    (ori byte at oct 0 for any_ea ∷ [])
    ∷ (ori word at oct 100 for any_ea ∷ [])
    ∷ (ori long at oct 200 for any_ea ∷ [])
    ∷ (andi byte at oct 1000 for any_ea ∷ [])
    ∷ (andi word at oct 1100 for any_ea ∷ [])
    ∷ (andi long at oct 1200 for any_ea ∷ [])
    ∷ (subi byte at oct 2000 for any_ea ∷ [])
    ∷ (subi word at oct 2100 for any_ea ∷ [])
    ∷ (subi long at oct 2200 for any_ea ∷ [])
    ∷ (addi byte at oct 3000 for any_ea ∷ [])
    ∷ (addi word at oct 3100 for any_ea ∷ [])
    ∷ (addi long at oct 3200 for any_ea ∷ [])
    ∷ (eori byte at oct 5000 for any_ea ∷ [])
    ∷ (eori word at oct 5100 for any_ea ∷ [])
    ∷ (eori long at oct 5200 for any_ea ∷ [])
    ∷ (cmpi byte at oct 6000 for any_ea ∷ [])
    ∷ (cmpi word at oct 6100 for any_ea ∷ [])
    ∷ (cmpi long at oct 6200 for any_ea ∷ [])
    ∷ (negx_ea byte at oct 40000 for any_ea ∷ [])
    ∷ (negx_ea word at oct 40100 for any_ea ∷ [])
    ∷ (negx_ea long at oct 40200 for any_ea ∷ [])
    ∷ (move_from_sr at oct 40300 for any_ea ∷ [])
    ∷ (clr_ea byte at oct 41000 for any_ea ∷ [])
    ∷ (clr_ea word at oct 41100 for any_ea ∷ [])
    ∷ (clr_ea long at oct 41200 for any_ea ∷ [])
    ∷ (move_from_ccr at oct 41300 for any_ea ∷ [])
    ∷ (neg_ea byte at oct 42000 for any_ea ∷ [])
    ∷ (neg_ea word at oct 42100 for any_ea ∷ [])
    ∷ (neg_ea long at oct 42200 for any_ea ∷ [])
    ∷ (move_to_ccr at oct 42300 for any_ea ∷ [])
    ∷ (not_ea byte at oct 43000 for any_ea ∷ [])
    ∷ (not_ea word at oct 43100 for any_ea ∷ [])
    ∷ (not_ea long at oct 43200 for any_ea ∷ [])
    ∷ (move_to_sr at oct 43300 for any_ea ∷ [])
    ∷ (nbcd_ea at oct 44000 for any_ea ∷ [])
    ∷ (tst_ea byte at oct 45000 for any_ea ∷ [])
    ∷ (tst_ea word at oct 45100 for any_ea ∷ [])
    ∷ (tst_ea long at oct 45200 for any_ea ∷ [])
    ∷ (tas_ea at oct 45300 for any_ea ∷ [])
    ∷ (mul_l at oct 46000 for any_ea ∷ [])
    ∷ (div_l at oct 46100 for any_ea ∷ [])
    ∷ (move byte at oct 10000 for d ∷ any_ea ∷ [])
    ∷ (move long at oct 20000 for d ∷ any_ea ∷ [])
    ∷ (move word at oct 30000 for d ∷ any_ea ∷ [])
    ∷ (movea long at oct 20100 for d ∷ any_ea ∷ [])
    ∷ (movea word at oct 30100 for d ∷ any_ea ∷ [])
    ∷ (chk_ea long at oct 40400 for d ∷ any_ea ∷ [])
    ∷ (chk_ea word at oct 40600 for d ∷ any_ea ∷ [])
    ∷ (addq byte at oct 50000 for d ∷ any_ea ∷ [])
    ∷ (addq word at oct 50100 for d ∷ any_ea ∷ [])
    ∷ (addq long at oct 50200 for d ∷ any_ea ∷ [])
    ∷ (subq byte at oct 50400 for d ∷ any_ea ∷ [])
    ∷ (subq word at oct 50500 for d ∷ any_ea ∷ [])
    ∷ (subq long at oct 50600 for d ∷ any_ea ∷ [])
    ∷ (or_to_dn byte at oct 100000 for d ∷ any_ea ∷ [])
    ∷ (or_to_dn word at oct 100100 for d ∷ any_ea ∷ [])
    ∷ (or_to_dn long at oct 100200 for d ∷ any_ea ∷ [])
    ∷ (divu_w_dn at oct 100300 for d ∷ any_ea ∷ [])
    ∷ (divs_w_dn at oct 100700 for d ∷ any_ea ∷ [])
    ∷ (sub_to_dn byte at oct 110000 for d ∷ any_ea ∷ [])
    ∷ (sub_to_dn word at oct 110100 for d ∷ any_ea ∷ [])
    ∷ (sub_to_dn long at oct 110200 for d ∷ any_ea ∷ [])
    ∷ (suba word at oct 110300 for d ∷ any_ea ∷ [])
    ∷ (suba long at oct 110700 for d ∷ any_ea ∷ [])
    ∷ (cmp_dn byte at oct 130000 for d ∷ any_ea ∷ [])
    ∷ (cmp_dn word at oct 130100 for d ∷ any_ea ∷ [])
    ∷ (cmp_dn long at oct 130200 for d ∷ any_ea ∷ [])
    ∷ (cmpa word at oct 130300 for d ∷ any_ea ∷ [])
    ∷ (eor byte at oct 130400 for d ∷ any_ea ∷ [])
    ∷ (eor word at oct 130500 for d ∷ any_ea ∷ [])
    ∷ (eor long at oct 130600 for d ∷ any_ea ∷ [])
    ∷ (cmpa long at oct 130700 for d ∷ any_ea ∷ [])
    ∷ (and_to_dn byte at oct 140000 for d ∷ any_ea ∷ [])
    ∷ (and_to_dn word at oct 140100 for d ∷ any_ea ∷ [])
    ∷ (and_to_dn long at oct 140200 for d ∷ any_ea ∷ [])
    ∷ (mulu_w_dn at oct 140300 for d ∷ any_ea ∷ [])
    ∷ (muls_w_dn at oct 140700 for d ∷ any_ea ∷ [])
    ∷ (add_to_dn byte at oct 150000 for d ∷ any_ea ∷ [])
    ∷ (add_to_dn word at oct 150100 for d ∷ any_ea ∷ [])
    ∷ (add_to_dn long at oct 150200 for d ∷ any_ea ∷ [])
    ∷ (adda word at oct 150300 for d ∷ any_ea ∷ [])
    ∷ (adda long at oct 150700 for d ∷ any_ea ∷ [])
    ∷ (move byte at oct 10000 for d ∷ k ∷ any_ea ∷ [])
    ∷ (move long at oct 20000 for d ∷ k ∷ any_ea ∷ [])
    ∷ (move word at oct 30000 for d ∷ k ∷ any_ea ∷ [])
    ∷ []
