-- ===== src/Stack.antt =====
-- PUSH16, PUSH32, POP16, POP32, JUMP, TRACE_BRANCH and the STORE_ functions of include/inline.hpp, with
-- ADDRESS_ERROR of src/cpu/exception.cc.
pub mod Order
use newmacemu.Common.{
  ℕ, ◌+◌, ◌-◌, ◌*◌, ◌/◌, ◌%◌, ◌^◌, bit_or, bit, ◌==◌, true, if◌then◌else◌, Size, wrap, modulus,
}
use newmacemu.Machine.{
  Machine, addr_err, Outcome, ok, raised, M, bind, ◌>>=◌, ◌>>◌, pure, gets, modify, update,
}
use newmacemu.Bus.{Devices}
use newmacemu.Memory.{Mmu, offset}
use newmacemu.Memory.Access.{read_w, write_w}

-- `cpu.A[7]`, and its value less k.
abbrev pub sp : {Io : Type 0} → Machine Io → ℕ
sp m = m.a 7

abbrev pub below : ℕ → ℕ → ℕ
below addr k = (addr + 2 ^ 32 - k) % 2 ^ 32

abbrev pub set_sp : {Io : Type 0} → ℕ → M Io (Unit {0})
set_sp addr m = ok tt (record m { a = update m.a 7 addr })

unfoldable pub address_error : {Io A : Type 0} → ℕ → M Io A
address_error addr m = raised addr_err (record m { ex_addr = addr })

unfoldable pub jump : {Io : Type 0} → ℕ → M Io (Unit {0})
unfolding address_error
jump next m = if bit next 0 then address_error next m else ok tt (record m { pc = next })

unfoldable pub trace_branch : {Io : Type 0} → M Io (Unit {0})
trace_branch m = ok tt (if m.t == 1 then record m { must_trace = true } else m)

-- STORE_B, STORE_W, STORE_L: the low part of a register is replaced.
unfoldable pub store : Size → ℕ → ℕ → ℕ
store w old v = old / modulus w * modulus w + v

module _ {Io : Type 0} (devices : Devices Io) (mmu : Mmu Io) where
  -- `WriteW(cpu.A[7] -= 2, v)`.
  unfoldable pub push16 : ℕ → M Io (Unit {0})
  push16 v = do addr ← gets (λ m. below (sp m) 2); done ← set_sp addr; write_w devices mmu addr v

  unfoldable pub push32 : ℕ → M Io (Unit {0})
  push32 v = do
    addr ← gets sp
    low ← write_w devices mmu (below addr 2) (v % 2 ^ 16)
    high ← write_w devices mmu (below addr 4) (v / 2 ^ 16)
    set_sp (below addr 4)

  unfoldable pub pop16 : M Io ℕ
  pop16 = do addr ← gets sp; v ← read_w devices mmu addr; done ← set_sp (offset addr 2); pure v

  -- The function returns a uint16_t; its two reads are taken from left to right.
  unfoldable pub pop32 : M Io ℕ
  pop32 = do
    addr ← gets sp
    high ← read_w devices mmu addr
    low ← read_w devices mmu (offset addr 2)
    done ← set_sp (offset addr 4)
    pure (bit_or (high * 2 ^ 16) low % 2 ^ 16)
