-- ===== src/Instruction/Conditions.antt =====
-- src/cpu/op.cc: testCC, and the instructions that test a condition: Scc, DBcc, TRAPcc and Bcc.
use newmacemu.Common.{
  ℕ, ◌/◌, ◌^◌, Bool, true, false, not, ◌&&◌, ◌||◌, xor, bit_and, ◌==◌, if◌then◌else◌, Option, none,
  some, byte, word, sign_extend,
}
use newmacemu.Ccr.{Ccr}
use newmacemu.Machine.{trapx, ok, halted, M, ◌>>=◌, pure, gets}
use newmacemu.Bus.{Devices}
use newmacemu.Memory.{Mmu, offset}
use newmacemu.Branch.{do_bra, do_bsr, do_bcc, do_dbcc}
use newmacemu.Fetch.{fetch, fetch32}
use newmacemu.Status.{raise}
use newmacemu.Instruction.{reg_of, result}

-- testCC; the codes from 15 on are LE, since a code has four bits.
unfoldable pub test_cc : ℕ → Ccr → Bool
test_cc cc f =
    if cc == 0
    then true
    else if cc == 1
    then false
    else if cc == 2
    then not f.c && not f.z
    else if cc == 3
    then f.c || f.z
    else if cc == 4
    then not f.c
    else if cc == 5
    then f.c
    else if cc == 6
    then not f.z
    else if cc == 7
    then f.z
    else if cc == 8
    then not f.v
    else if cc == 9
    then f.v
    else if cc == 10
    then not f.n
    else if cc == 11
    then f.n
    else if cc == 12
    then not (xor f.n f.v)
    else if cc == 13
    then xor f.n f.v
    else if cc == 14
    then not f.z && not (xor f.n f.v)
    else f.z || xor f.n f.v

-- `op >> 8 & 0xf`.
abbrev pub cc_of : ℕ → ℕ
cc_of op = bit_and (op / 2 ^ 8) 15

-- What TRAPcc steps over, by its REG; the other values are unreachable in the source.
unfoldable pub trap_operand : ℕ → Option ℕ
trap_operand reg =
    if reg == 2 then some 2 else if reg == 3 then some 4 else if reg == 4 then some 0 else none

module _ {Io : Type 0} where
  abbrev trapcc_over : ℕ → Option ℕ → M Io (Unit {0})
  trapcc_over op none m = halted m
  trapcc_over op (some k) m =
      let m1 = record m { pc = offset m.pc k } in
      if test_cc (cc_of op) m.ccr then raise trapx m1 else ok tt m1

  unfoldable pub trapcc : ℕ → M Io (Unit {0})
  unfolding test_cc trap_operand
  trapcc op = trapcc_over op (trap_operand (reg_of op))

module _ {Io : Type 0} (devices : Devices Io) (mmu : Mmu Io) where
  unfoldable pub scc_ea : ℕ → M Io (Unit {0})
  unfolding test_cc
  scc_ea op = do
    met ← gets (λ m. test_cc (cc_of op) m.ccr)
    result devices mmu byte op (if met then 0xff else 0)

  unfoldable pub dbcc : ℕ → M Io (Unit {0})
  unfolding test_cc
  dbcc op = do
    disp ← fetch devices mmu
    met ← gets (λ m. test_cc (cc_of op) m.ccr)
    do_dbcc met (reg_of op) disp

  -- The displacement: in the opcode, or in the words behind it.
  abbrev displacement : ℕ → M Io ℕ
  displacement op =
      if bit_and op 0xff == 0
      then (fetch devices mmu >>= λ v. pure (sign_extend word v))
      else if bit_and op 0xff == 0xff
      then fetch32 devices mmu
      else pure (sign_extend byte (bit_and op 0xff))

  abbrev branched : ℕ → ℕ → M Io (Unit {0})
  branched cc imm m =
      if cc == 0
      then do_bra imm m
      else if cc == 1
      then do_bsr devices mmu imm m
      else do_bcc (test_cc cc m.ccr) imm m

  unfoldable pub bxx : ℕ → M Io (Unit {0})
  unfolding test_cc
  bxx op = do imm ← displacement op; branched (cc_of op) imm
