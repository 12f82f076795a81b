-- ===== src/Memory.antt =====
-- src/memory.cc: memory access by logical address, byte by byte where an operand is not aligned, and
-- ACCESS_FAULT of src/cpu/exception.cc.
pub mod Access
pub mod Alignment
use newmacemu.Common.{
  ◌<◌, ◌≡◌, ℕ, ◌+◌, ◌-◌, ◌*◌, ◌/◌, ◌%◌, ◌^◌, Bool, true, false, not, ◌&&◌, bit_and, bit_or, bit,
  to_num, not32, if◌then◌else◌, Size, byte, word, long,
}
use newmacemu.Machine.{
  halted, IsOff, Machine, ExceptionNumber, afault, Outcome, ok, ptest_error, raised, M, bind, ◌>>=◌,
  ◌>>◌, pure, gets, modify, update,
}
use newmacemu.Bus.{Devices, bus_read, bus_write, Pointer, do_bus16, copy_from, copy_to}

-- What memory access asks of the MMU: ptest_and_check(addr, code, W), the physical address or a
-- PTestError, which changes nothing while no translation is enabled.
pub record Mmu (Io : Type 0) : Type 0 where
  pub ptest_and_check : ℕ → Bool → Bool → M Io ℕ
  pub flat :
      (addr : ℕ) (code w : Bool) (m : Machine Io)
      → IsOff m.paging
      → addr < 2 ^ 32
      → ptest_and_check addr code w m ≡ ok addr m

-- The bits of the status word (include/exception.hpp).
abbrev pub ssw_ma : ℕ
ssw_ma = 2 ^ 11

abbrev pub ssw_cm : ℕ
ssw_cm = 2 ^ 12

abbrev pub tt_move16 : ℕ
tt_move16 = 2 ^ 3

abbrev pub tt_alt : ℕ
tt_alt = 2 * 2 ^ 3

-- SIZ::B, SIZ::W, SIZ::L; SIZ::LN is 3.
abbrev pub siz : Size → ℕ
siz byte = 1
siz word = 2
siz long = 0

-- GetTMData and GetTMCode.
abbrev pub tm_data : {Io : Type 0} → Machine Io → ℕ
tm_data m = if m.s then 5 else 1

abbrev pub tm_code : {Io : Type 0} → Machine Io → ℕ
tm_code m = if m.s then 6 else 2

-- The status word that ACCESS_FAULT completes.
abbrev pub fault_word : {Io : Type 0} → Machine Io → ℕ → Bool → ℕ → ℕ → ℕ
fault_word m sz rw_bit tm tt_bits =
    let w0 : ℕ = if m.movem_run then bit_or m.fault_ssw ssw_cm else m.fault_ssw in
    bit_or
      (bit_or
        (bit_or (bit_or (bit_or w0 tt_bits) (to_num m.bus_lock * 2 ^ 9)) (to_num rw_bit * 2 ^ 8))
        (sz * 2 ^ 5))
      tm

-- ACCESS_FAULT(a, sz, rw, m, tt).
unfoldable pub access_fault : {Io A : Type 0} → ℕ → ℕ → Bool → ℕ → ℕ → M Io A
access_fault addr sz rw_bit tm tt_bits m =
    raised afault (record m { ex_addr = addr; fault_ssw = fault_word m sz rw_bit tm tt_bits })

-- `try { ... } catch(PTestError& e) { e.code |= SSW_MA; throw e; }`
abbrev pub marked : {Io A : Type 0} → Outcome Io A → Outcome Io A
marked (ok x m) = ok x m
marked (ptest_error code m) = ptest_error (bit_or code ssw_ma) m
marked (raised n m) = raised n m
marked (halted m) = halted m

-- `try { ... } catch(PTestError& e) { cpu.fault_SSW = e.code; ... }`, the handler given the code.
abbrev pub caught : {Io A : Type 0} → (ℕ → M Io A) → Outcome Io A → Outcome Io A
caught handler (ok x m) = ok x m
caught handler (ptest_error code m) = handler code m
caught handler (raised n m) = raised n m
caught handler (halted m) = halted m

-- The handler of the functions below.
abbrev pub fault_as : {Io A : Type 0} → ℕ → ℕ → Bool → (Machine Io → ℕ) → ℕ → ℕ → M Io A
fault_as addr sz rw_bit tm tt_bits code m =
    access_fault addr sz rw_bit (tm m) tt_bits (record m { fault_ssw = code })

-- `addr + k` of a uint32_t.
abbrev pub offset : ℕ → ℕ → ℕ
offset addr k = (addr + k) % 2 ^ 32

module _ {Io : Type 0} (devices : Devices Io) (mmu : Mmu Io) where
  -- ReadBImpl(addr, lock).
  unfoldable pub read_b_impl : ℕ → Bool → M Io ℕ
  read_b_impl addr lock = do
    paddr ← mmu.ptest_and_check addr false lock
    bus_read devices byte paddr

  -- ReadWImpl(addr, code, lock).
  unfoldable pub read_w_impl : ℕ → Bool → Bool → M Io ℕ
  read_w_impl addr code lock =
      if not code && bit addr 0
      then (do
        vx1 ← read_b_impl addr lock
        λ m1.
            marked
              (bind (read_b_impl (offset addr 1) lock m1) λ vx2. pure (bit_or (vx1 * 2 ^ 8) vx2)))
      else (do paddr ← mmu.ptest_and_check addr code lock; bus_read devices word paddr)

  -- ReadLImpl(addr, lock).
  unfoldable pub read_l_impl : ℕ → Bool → M Io ℕ
  read_l_impl addr lock =
      if bit addr 1
      then (do
        vx1 ← read_w_impl addr false lock
        λ m1. marked (
            bind (read_w_impl (offset addr 2) false lock m1)
              λ vx2. pure (bit_or (vx1 * 2 ^ 16) vx2)))
      else (do paddr ← mmu.ptest_and_check addr false lock; bus_read devices long paddr)

  -- WriteBImpl(addr, b).
  unfoldable pub write_b_impl : ℕ → ℕ → M Io (Unit {0})
  write_b_impl addr b = do
    paddr ← mmu.ptest_and_check addr false true
    bus_write devices byte paddr b

  -- WriteWImpl(addr, w).
  unfoldable pub write_w_impl : ℕ → ℕ → M Io (Unit {0})
  write_w_impl addr w =
      if bit addr 0
      then (do
        done ← write_b_impl addr (w / 2 ^ 8 % 2 ^ 8)
        λ m1. marked (write_b_impl (offset addr 1) (w % 2 ^ 8) m1))
      else (do paddr ← mmu.ptest_and_check addr false true; bus_write devices word paddr w)

  -- WriteLImpl(addr, l).
  unfoldable pub write_l_impl : ℕ → ℕ → M Io (Unit {0})
  write_l_impl addr l =
      if bit addr 1
      then (do
        done ← write_w_impl addr (l / 2 ^ 16 % 2 ^ 16)
        λ m1. marked (write_w_impl (offset addr 2) (l % 2 ^ 16) m1))
      else (do paddr ← mmu.ptest_and_check addr false true; bus_write devices long paddr l)
