-- ===== src/Instruction/Paired.antt =====
-- src/cpu/op.cc: the instructions on two data registers or on two operands in memory: SBCD, ABCD, PACK,
-- UNPK, SUBX, ADDX and CMPM.
use newmacemu.Common.{ℕ, ◌*◌, ◌/◌, ◌^◌, Bool, bit_or, Size, byte, word, wrap}
use newmacemu.Ccr.{Ccr, Alu}
use newmacemu.Arithmetic.{addx, subx, cmp}
use newmacemu.Bcd.{abcd, sbcd, pack, unpk}
use newmacemu.Machine.{M, ◌>>=◌, pure, gets}
use newmacemu.Bus.{Devices}
use newmacemu.Memory.{Mmu, offset}
use newmacemu.Memory.Access.{read_b, write_b}
use newmacemu.Stack.{below}
use newmacemu.Compare.{read, write}
use newmacemu.Fetch.{fetch}
use newmacemu.EffectiveAddress.{bytes}
use newmacemu.Instruction.{
  reg_of, dn_of, Operand, on_register, in_memory, computed, flagged, low_of, set_a, store_d,
}

module _ {Io : Type 0} where
  -- `cpu.A[n] -= k`, as an expression, and `std::exchange(cpu.A[n], cpu.A[n] + k)`.
  abbrev before : ℕ → ℕ → M Io ℕ
  before n k = do addr ← gets (λ m. below (m.a n) k); done ← set_a n addr; pure addr

  abbrev after : ℕ → ℕ → M Io ℕ
  after n k = do addr ← gets (λ m. m.a n); done ← set_a n (offset addr k); pure addr

  -- An operation with the flags and X.
  abbrev extended : (Ccr → ℕ → ℕ → Bool → Alu) → ℕ → ℕ → M Io ℕ
  extended f a b = computed (λ flags. f flags a b flags.x)

module _ {Io : Type 0} (devices : Devices Io) (mmu : Mmu Io) where
  -- `REG(op)` is the first operand, and the result goes to `DN(op)`.
  abbrev decimal : (Ccr → ℕ → ℕ → Bool → Alu) → Operand → ℕ → M Io (Unit {0})
  decimal f on_register op = do
    v1 ← low_of byte (reg_of op)
    v2 ← low_of byte (dn_of op)
    r ← extended f v1 v2
    store_d byte (dn_of op) r
  decimal f in_memory op = do
    addr1 ← before (reg_of op) 1
    v1 ← read_b devices mmu addr1
    addr2 ← before (dn_of op) 1
    v2 ← read_b devices mmu addr2
    r ← extended f v1 v2
    write_b devices mmu addr2 r

  -- sbcd_d, sbcd_m.
  unfoldable pub sbcd_op : Operand → ℕ → M Io (Unit {0})
  sbcd_op = decimal sbcd

  -- abcd_d, abcd_m.
  unfoldable pub abcd_op : Operand → ℕ → M Io (Unit {0})
  abcd_op = decimal abcd

  -- pack_d, pack_m.
  unfoldable pub pack_op : Operand → ℕ → M Io (Unit {0})
  pack_op on_register op = do
    adj ← fetch devices mmu
    v ← low_of word (reg_of op)
    store_d byte (dn_of op) (pack v adj)
  pack_op in_memory op = do
    adj ← fetch devices mmu
    addr1 ← before (reg_of op) 1
    low ← read_b devices mmu addr1
    addr2 ← before (reg_of op) 1
    high ← read_b devices mmu addr2
    to ← before (dn_of op) 1
    write_b devices mmu to (pack (bit_or low (high * 2 ^ 8)) adj)

  -- unpk_d, unpk_m.
  unfoldable pub unpk_op : Operand → ℕ → M Io (Unit {0})
  unpk_op on_register op = do
    adj ← fetch devices mmu
    v ← low_of byte (reg_of op)
    store_d word (dn_of op) (unpk v adj)
  unpk_op in_memory op = do
    adj ← fetch devices mmu
    from ← before (reg_of op) 1
    v ← read_b devices mmu from
    to1 ← before (dn_of op) 1
    low ← write_b devices mmu to1 (wrap byte (unpk v adj))
    to2 ← before (dn_of op) 1
    write_b devices mmu to2 (unpk v adj / 2 ^ 8)

  -- The destination, then the source; both registers are stepped before the reads.
  abbrev stepped : Size → (Ccr → ℕ → ℕ → Bool → Alu) → Operand → ℕ → ℕ → M Io (Unit {0})
  stepped w f on_register dst src = do
    v1 ← low_of w dst
    v2 ← low_of w src
    r ← extended f v1 v2
    store_d w dst r
  stepped w f in_memory dst src = do
    dst_adr ← before dst (bytes w)
    src_adr ← before src (bytes w)
    v1 ← read devices mmu w dst_adr
    v2 ← read devices mmu w src_adr
    r ← extended f v1 v2
    write devices mmu w dst_adr r

  -- subx_b_d to subx_l_m: the destination is `REG(op)`.
  unfoldable pub subx_op : Size → Operand → ℕ → M Io (Unit {0})
  subx_op w form op = stepped w (subx w) form (reg_of op) (dn_of op)

  -- addx_b_d to addx_l_m: the destination is `DN(op)`.
  unfoldable pub addx_op : Size → Operand → ℕ → M Io (Unit {0})
  addx_op w form op = stepped w (addx w) form (dn_of op) (reg_of op)

  -- cmpm_b, cmpm_w, cmpm_l; the reads are taken from left to right.
  unfoldable pub cmpm : Size → ℕ → M Io (Unit {0})
  cmpm w op = do
    src_adr ← after (reg_of op) (bytes w)
    dst_adr ← after (dn_of op) (bytes w)
    v1 ← read devices mmu w dst_adr
    v2 ← read devices mmu w src_adr
    flagged (λ f. cmp w f v1 v2)
