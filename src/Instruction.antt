-- ===== src/Instruction.antt =====
-- src/cpu/op.cc: the handlers of the instructions. This file has what they share: the fields of an
-- opcode (include/inline.hpp), and operands that are read, combined and written back.
pub mod Immediate
pub mod Bits
pub mod Transfer
pub mod Unary
pub mod Products
pub mod Flow
pub mod Conditions
pub mod Binary
pub mod Paired
pub mod Shifts
pub mod Fields
pub mod Movem
pub mod Order
pub mod Saved
pub mod Reloaded
pub mod Rewritten
pub mod Linked
use newmacemu.Common.{
  ℕ, ◌+◌, ◌*◌, ◌/◌, ◌%◌, ◌^◌, Bool, true, false, bit_and, ◌==◌, if◌then◌else◌, Option, none, some,
  Size, wrap,
}
use newmacemu.Ccr.{Ccr, Alu, test}
use newmacemu.Machine.{
  Machine, Outcome, ok, halted, M, bind, ◌>>=◌, ◌>>◌, pure, gets, modify, update,
}
use newmacemu.Bus.{Devices}
use newmacemu.Memory.{Mmu}
use newmacemu.Stack.{store}
use newmacemu.EffectiveAddress.{bytes, ea_getaddr, ea_read, ea_write}

-- REG, TYPE and DN.
unfoldable pub reg_of : ℕ → ℕ
reg_of op = bit_and op 7

unfoldable pub type_of : ℕ → ℕ
type_of op = bit_and (op / 2 ^ 3) 7

unfoldable pub dn_of : ℕ → ℕ
dn_of op = bit_and (op / 2 ^ 9) 7

-- `DN(op) ? DN(op) : 8`.
abbrev pub quick_of : ℕ → ℕ
quick_of op = if dn_of op == 0 then 8 else dn_of op

-- `cpu.V = cpu.C = false` and TEST_.
abbrev pub moved : Size → ℕ → Ccr → Ccr
moved w v f = record (test w v f) { v = false; c = false }

-- The suffixes of handlers with one form on data registers and one in memory.
pub data Operand : Type 0 where
  on_register in_memory : Operand

-- The suffixes _i and _r: the count or the bit's number in the instruction, or in a register.
pub data Count : Type 0 where
  by_immediate by_register : Count

module _ {Io : Type 0} where
  -- The value of an operation, its flags left in `cpu`.
  abbrev pub computed : (Ccr → Alu) → M Io ℕ
  computed f m = ok (f m.ccr).value (record m { ccr = (f m.ccr).ccr })

  -- An operation without a value.
  abbrev pub flagged : (Ccr → Ccr) → M Io (Unit {0})
  flagged f m = ok tt (record m { ccr = f m.ccr })

  -- An operation that C++ leaves undefined for some operands: the model stops there.
  abbrev pub defined : Option Alu → M Io ℕ
  defined (some r) m = ok r.value (record m { ccr = r.ccr })
  defined none m = halted m

  -- `cpu.D[n]`, and its low part.
  abbrev pub data_of : ℕ → M Io ℕ
  data_of n = gets (λ m. m.d n)

  abbrev pub low_of : Size → ℕ → M Io ℕ
  low_of w n = gets (λ m. wrap w (m.d n))

  -- `cpu.D[n] = v`, `cpu.A[n] = v`, and STORE_ into `cpu.D[n]`.
  abbrev pub set_d : ℕ → ℕ → M Io (Unit {0})
  set_d n v = modify (λ m. record m { d = update m.d n v })

  abbrev pub set_a : ℕ → ℕ → M Io (Unit {0})
  set_a n v = modify (λ m. record m { a = update m.a n v })

  abbrev pub store_d : Size → ℕ → ℕ → M Io (Unit {0})
  store_d w n v = modify (λ m. record m { d = update m.d n (store w (m.d n) v) })

module _ {Io : Type 0} (devices : Devices Io) (mmu : Mmu Io) where
  -- `ea_read(TYPE(op), REG(op))`, in a variable of the size; with the bus locked; and
  -- `ea_write(TYPE(op), REG(op), v)`.
  abbrev pub source : Size → ℕ → M Io ℕ
  source w op = do v ← ea_read devices mmu w (type_of op) (reg_of op) false; pure (wrap w v)

  abbrev pub locked : Size → ℕ → M Io ℕ
  locked w op = do v ← ea_read devices mmu w (type_of op) (reg_of op) true; pure (wrap w v)

  abbrev pub result : Size → ℕ → ℕ → M Io (Unit {0})
  result w op v = ea_write devices mmu w (type_of op) (reg_of op) v

  -- `ea_getaddr(TYPE(op), REG(op), n)`, and the same with the address left in `cpu.EA`.
  abbrev pub address : ℕ → ℕ → M Io ℕ
  address n op = ea_getaddr devices mmu (type_of op) (reg_of op) n

  abbrev pub placed : Size → ℕ → M Io ℕ
  placed w op = do
    addr ← address (bytes w) op
    done ← modify (λ m. record m { ea = addr })
    pure addr

  -- An operand that is read with the bus locked, combined and written back.
  abbrev pub rewritten : Size → (ℕ → Machine Io → Alu) → ℕ → M Io (Unit {0})
  rewritten w f op = do v ← locked w op; r ← λ m. computed (λ flags. f v m) m; result w op r
