-- ===== src/Decoder.antt =====
-- src/cpu/op.cc, init_run_table: which opcode has which handler. An assignment
-- `run_table[base | d << 9 | ea] = OP::name` in its loops is a rule: the base, the loops' variables
-- with their values, and the handler. The rules stand in the order of the assignments, so that the
-- last rule for an opcode is the one that counts.
pub mod General
pub mod Forms
pub mod Memory
pub mod Shifting
pub mod Table
pub mod Sound
pub mod Lines
pub mod Single
use newmacemu.Common.{
  ℕ, ◌+◌, ◌*◌, ◌/◌, ◌%◌, ◌^◌, Bool, ◌&&◌, leb, false, ltb, ◌==◌, if◌then◌else◌, Option, none, some,
  List, [], ◌∷◌, Size,
}
use newmacemu.Instruction.{Operand, Count}
use newmacemu.Instruction.Shifts.{Kind}
use newmacemu.Paging.Handlers.{MmuInstruction}

-- The handlers of 68040_fpu.cc that its init_table assigns.
pub data FpuInstruction : Type 0 where
  fop fscc fsave frestore fdbcc ftrapcc fbcc_w fbcc_l : FpuInstruction

-- The handlers of `namespace OP`, by the names of the definitions that model them.
pub data Instruction : Type 0 where
  ori andi eori subi addi cmpi cmp2_chk2 cas_ea cas2_ea moves move movea negx_ea clr_ea neg_ea
        not_ea tst_ea chk_ea addq subq or_to_dn and_to_dn sub_to_dn add_to_dn or_to_ea and_to_ea
        sub_to_ea add_to_ea eor cmp_dn cmpa suba adda cmpm store_decr store_base load_incr
        load_base :
      Size → Instruction
  bchg_ea bclr_ea bset_ea btst_ea : Operand → Count → Instruction
  btst_b_imm : Count → Instruction
  subx_op addx_op : Size → Operand → Instruction
  sbcd_op abcd_op pack_op unpk_op bftst bfchg bfclr bfset bfextu bfexts bfffo bfins :
      Operand → Instruction
  right_d left_d : Kind → Size → Count → Instruction
  right_ea left_ea : Kind → Instruction
  ori_b_ccr ori_w_sr andi_b_ccr andi_w_sr eori_b_ccr eori_w_sr movep_w_load movep_l_load
        movep_w_store movep_l_store moveq exg_dn exg_an exg_da move_to_usp move_from_usp
        move_from_sr move_from_ccr move_to_ccr move_to_sr lea move16_base_imm move16_imm_base
        move16_inc_imm move16_imm_inc move16_inc_inc swap_halves ext_w ext_l extb_l nbcd_ea tas_ea
        mul_l div_l mulu_w_dn muls_w_dn divu_w_dn divs_w_dn illegal bkpt aline_ex fline_default
        trap_op trapv nop reset_op link_w link_l unlk pea jsr jmp rtd rts rtr rte stop scc_ea dbcc
        trapcc bxx addq_an subq_an :
      Instruction
  mmu : MmuInstruction → Instruction
  fpu : FpuInstruction → Instruction

-- A number of up to six octal digits, from its decimal reading: `oct 40400` is 040400.
abbrev pub oct : ℕ → ℕ
oct n =
    n % 10
    + 8 * (n / 10 % 10)
    + 8 ^ 2 * (n / 100 % 10)
    + 8 ^ 3 * (n / 1000 % 10)
    + 8 ^ 4 * (n / 10000 % 10)
    + 8 ^ 5 * (n / 100000 % 10)

-- A loop's variable: it is shifted by `shift`, has `width` bits there, and takes the values that the
-- loop and the tests inside it allow.
pub record Loop : Type 0 where
  pub shift : ℕ
  pub width : ℕ
  pub takes : ℕ → Bool

abbrev pub loop : ℕ → ℕ → ℕ → ℕ → Loop
loop s w low high = record { shift = s; width = w; takes = λ x. leb low x && ltb x high }

pub record Rule : Type 0 where
  pub base : ℕ
  pub loops : List Loop
  pub handler : Instruction

infix 4 ◌at◌for◌
abbrev pub ◌at◌for◌ : Instruction → ℕ → List Loop → Rule
i at b for ls = record { base = b; loops = ls; handler = i }

-- The variable's value in an opcode.
abbrev pub value_in : Loop → ℕ → ℕ
value_in l op = op / 2 ^ l.shift % 2 ^ l.width

-- Is the opcode the base with values of the variables?
abbrev pub reached : ℕ → List Loop → ℕ → Bool
reached b [] op = op == b
reached b (l ∷ ls) op =
    let rest = reached (b + value_in l op * 2 ^ l.shift) ls op in
    if l.takes (value_in l op) then rest else false

abbrev pub assigns : Rule → ℕ → Bool
assigns r op = reached r.base r.loops op

-- The handler of the last rule that assigns the opcode's entry; `none` is the null pointer.
abbrev pub last_handler : List Rule → ℕ → Option Instruction
last_handler [] op = none
last_handler (r ∷ rs) op =
    or_else (last_handler rs op) (if assigns r op then some r.handler else none)
  where
    or_else : Option Instruction → Option Instruction → Option Instruction
    or_else (some i) first = some i
    or_else none first = first
