-- ===== src/Exception.antt =====
-- src/cpu/exception.cc: the frames that an exception pushes, and handle_exception.
pub mod Return
pub mod Reset
pub mod Frame
pub mod Entry
pub mod Resumed
pub mod Settled
pub mod Restored
use newmacemu.Common.{
  ℕ, ◌+◌, ◌-◌, ◌*◌, ◌/◌, ◌%◌, ◌^◌, Bool, true, false, not, bit_and, bit_or, bit, ◌==◌, not32,
  if◌then◌else◌,
}
use newmacemu.Machine.{
  Machine, Control, ExceptionNumber, no_err, reset, afault, addr_err, illegal_op, div0, chk_fail,
  trapx, priv_err, trace, aline, fline, format_err, undef_irq, unknown_irq, fp_unorder, fp_inex,
  fp_div0, fp_unfl, fp_operr, fp_ovfl, fp_snan, fp_unimpl_type, irq_lv, trap, Outcome, ok,
  ptest_error, raised, halted, M, bind, ◌>>=◌, pure, gets, modify,
}
use newmacemu.Bus.{Devices}
use newmacemu.Memory.{Mmu, caught, offset, ssw_cm, write_w_impl, read_l_impl}
use newmacemu.Stack.{sp, set_sp, below, jump}
use newmacemu.Status.{get_sr, load_sp, raise}

-- The values of EXCEPTION_NUMBER.
unfoldable pub number : ExceptionNumber → ℕ
number no_err = 0
number reset = 1
number afault = 2
number addr_err = 3
number illegal_op = 4
number div0 = 5
number chk_fail = 6
number trapx = 7
number priv_err = 8
number trace = 9
number aline = 10
number fline = 11
number format_err = 14
number undef_irq = 15
number unknown_irq = 24
number (irq_lv k) = 24 + k
number (trap k) = 32 + k
number fp_unorder = 48
number fp_inex = 49
number fp_div0 = 50
number fp_unfl = 51
number fp_operr = 52
number fp_ovfl = 53
number fp_snan = 54
number fp_unimpl_type = 55

-- `catch(PTestError &) { double_fault(); }`
abbrev pub or_halt : {Io A : Type 0} → Outcome Io A → Outcome Io A
or_halt r = caught (λ code m. halted m) r

-- SSW_CT.
abbrev pub ssw_ct : ℕ
ssw_ct = 2 ^ 13

-- `cpu.S = true; LoadSP(); cpu.T = 0;`
abbrev pub supervised : {Io : Type 0} → Machine Io → Machine Io
supervised m = record (load_sp (record m { s = true })) { t = 0 }

module _ {Io : Type 0} (devices : Devices Io) (mmu : Mmu Io) where
  unfoldable pub ex_push16 : ℕ → M Io (Unit {0})
  ex_push16 v = do
    addr ← gets (λ m. below (sp m) 2)
    done ← set_sp addr
    λ m. or_halt (write_w_impl devices mmu addr (v % 2 ^ 16) m)

  unfoldable pub ex_push32 : ℕ → M Io (Unit {0})
  ex_push32 v = do done ← ex_push16 v; ex_push16 (v / 2 ^ 16)

  unfoldable pub ex_readl : ℕ → M Io ℕ
  ex_readl addr m = or_halt (read_l_impl devices mmu addr false m)

  unfoldable pub ex_jump : ℕ → M Io (Unit {0})
  ex_jump addr m = if bit addr 0 then halted m else ok tt (record m { pc = addr })

  -- `ex_JUMP(ex_READL(cpu.VBR + (n << 2)))`.
  abbrev pub enter : ℕ → M Io (Unit {0})
  enter n = do
    table ← gets (λ m. m.control.vbr)
    handler ← ex_readl (offset table (n * 4))
    ex_jump handler

  unfoldable pub exception0 : ℕ → ℕ → ℕ → M Io (Unit {0})
  unfolding ex_push16 ex_push32 ex_readl ex_jump
  exception0 n nextpc sr = do
    vector ← ex_push16 (n * 4)
    next ← ex_push32 nextpc
    status ← ex_push16 sr
    enter n

  unfoldable pub exception2 : ℕ → ℕ → ℕ → ℕ → M Io (Unit {0})
  unfolding ex_push16 ex_push32 ex_readl ex_jump
  exception2 n addr nextpc sr = do
    where_ ← ex_push32 addr
    vector ← ex_push16 (bit_or (2 * 2 ^ 12) (n * 4))
    next ← ex_push32 nextpc
    status ← ex_push16 sr
    enter n

  unfoldable pub exception3 : ℕ → ℕ → M Io (Unit {0})
  unfolding ex_push16 ex_push32 ex_readl ex_jump
  exception3 n sr = do
    operand ← gets (λ m. m.ea)
    where_ ← ex_push32 operand
    vector ← ex_push16 (bit_or (3 * 2 ^ 12) (n * 4))
    next ← gets (λ m. m.pc)
    pushed ← ex_push32 next
    status ← ex_push16 sr
    enter n

  -- `cpu.A[7] -= k`.
  abbrev skip : ℕ → M Io (Unit {0})
  skip k = do addr ← gets (λ m. below (sp m) k); set_sp addr

  -- The case AFAULT from the operand's address on; its last jump is JUMP.
  unfoldable pub access_rest : ℕ → ℕ → M Io (Unit {0})
  unfolding ex_push16 ex_push32 ex_readl jump
  access_rest sr ssw = do
    operand ← gets (λ m. if bit_and ssw 0xf000 == 0 then 0 else m.ea)
    where_ ← ex_push32 operand
    vector ← ex_push16 (bit_or (7 * 2 ^ 12) (2 * 4))
    next ← gets (λ m. m.oldpc)
    saved ← ex_push32 next
    status ← ex_push16 sr
    table ← gets (λ m. m.control.vbr)
    handler ← ex_readl (offset table (2 * 4))
    jump handler

  -- The case AFAULT from the blank words before the status word on.
  unfoldable pub access_word : ℕ → M Io (Unit {0})
  unfolding ex_push16 access_rest
  access_word sr = do
    blank ← skip (2 * 3)
    traced ←
        modify (λ m. if m.must_trace then record m { fault_ssw = bit_or m.fault_ssw ssw_ct } else m)
    ssw ← gets (λ m. m.fault_ssw)
    word ← ex_push16 ssw
    access_rest sr ssw

  -- The case AFAULT.
  unfoldable pub access_frame : ℕ → M Io (Unit {0})
  unfolding ex_push32 access_word
  access_frame sr = do
    stores ← skip (4 * 9)
    fault ← gets (λ m. m.ex_addr)
    pushed ← ex_push32 fault
    access_word sr

  -- The throwaway frame on the interrupt stack, if the master stack was in use.
  abbrev pub throwaway : ℕ → ℕ → M Io (Unit {0})
  throwaway n sr m =
      if m.control.m
      then (bind
          (modify (λ m1. load_sp (record m1 { control = record (m1.control) { m = false } })) m)
          λ moved. ex_push32 (bit_or (2 ^ 12) (n * 4)) >>= λ vector.
            gets (λ m1. m1.pc) >>= λ next. ex_push32 next >>= λ saved. ex_push16 sr)
      else ok tt m

  -- The interrupts' case; `cpu.I = int(n) - 24` on a uint8_t.
  unfoldable pub interrupt_frame : ℕ → ℕ → M Io (Unit {0})
  unfolding ex_push16 ex_push32 ex_readl ex_jump load_sp
  interrupt_frame n sr = do
    masked ←
        modify (λ m. record m { control = record (m.control) { i = (n + 2 ^ 8 - 24) % 2 ^ 8 } })
    vector ← ex_push16 (n * 4)
    next ← gets (λ m. m.pc)
    saved ← ex_push32 next
    status ← ex_push16 sr
    thrown ← throwaway n sr
    enter n

  -- The `switch(n)`.
  unfoldable pub frame_of : ExceptionNumber → ℕ → M Io (Unit {0})
  unfolding number exception0 exception2 exception3 access_frame interrupt_frame
  frame_of no_err sr m = ok tt m
  frame_of reset sr m = ok tt m
  frame_of afault sr m = access_frame sr m
  frame_of addr_err sr m = exception2 3 (bit_and m.ex_addr (not32 1)) m.oldpc sr m
  frame_of illegal_op sr m = exception0 (number illegal_op) m.oldpc sr m
  frame_of priv_err sr m = exception0 (number priv_err) m.oldpc sr m
  frame_of aline sr m = exception0 (number aline) m.oldpc sr m
  frame_of fline sr m = exception0 (number fline) m.oldpc sr m
  frame_of format_err sr m = exception0 (number format_err) m.oldpc sr m
  frame_of (trap k) sr m = exception0 (number (trap k)) m.pc sr m
  frame_of div0 sr m = exception2 (number div0) m.oldpc m.pc sr m
  frame_of chk_fail sr m = exception2 (number chk_fail) m.oldpc m.pc sr m
  frame_of trapx sr m = exception2 (number trapx) m.oldpc m.pc sr m
  frame_of trace sr m = exception2 (number trace) m.oldpc m.pc sr m
  frame_of undef_irq sr m = interrupt_frame (number undef_irq) sr m
  frame_of unknown_irq sr m = interrupt_frame (number unknown_irq) sr m
  frame_of (irq_lv k) sr m = interrupt_frame (number (irq_lv k)) sr m
  frame_of n sr m = exception3 (number n) (m.oldpc % 2 ^ 16) m

  unfoldable pub handle_exception : ExceptionNumber → M Io (Unit {0})
  unfolding get_sr load_sp frame_of
  handle_exception n m = frame_of n (get_sr m) (supervised m)
