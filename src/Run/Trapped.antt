-- ===== src/Run/Trapped.antt =====
-- A round of run_cpu in which an instruction ends in an exception.
use newmacemu.Common.{
  ℕ, ◌+◌, ◌*◌, ◌/◌, ◌%◌, ◌^◌, ◌<◌, ◌≡◌, refl, arith, suc, true, false, bit, none, some,
}
use newmacemu.Common.Mask.{bit_and-mod}
use newmacemu.Exception.Return.{do_rte}
use newmacemu.Status.{get_sr, stack_in_use}
use newmacemu.Machine.{Machine, ExceptionNumber, illegal_op, aline, priv_err, trap, raised, ok}
use newmacemu.Bus.{Devices}
use newmacemu.Memory.{Mmu}
use newmacemu.Fetch.{fetch}
use newmacemu.Exception.Resumed.{
  HasFormat0, by_illegal_op, by_aline, by_trap, by_priv_err, return_pc,
}
use newmacemu.Exception.Restored.{
  IsReady, entry, entered_at, handle_exception-entered, do_rte-entered,
}
use newmacemu.Decoder.{Instruction}
use newmacemu.Decoder.Table.{run_table}
use newmacemu.Decoder.Lines.{run_table-lines}
use newmacemu.Instruction.{reg_of, type_of}
use newmacemu.Instruction.Flow.{aline_ex, trap_op}
use newmacemu.Execute.{Host, execute}
use newmacemu.Execute.Refused.{is_privileged, execute-refused}
use newmacemu.Run.{interrupted_by, prepared, op_prologue, dispatched, run_round, handled}

-- The opcodes that end in an exception on a machine, with the exception: those without a handler, the
-- line A, TRAP, and the privileged instructions in user mode.
pub data Traps {Io : Type 0} (op : ℕ) (m : Machine Io) : ExceptionNumber → Type 0 where
  unassigned : run_table op ≡ none → Traps op m illegal_op
  in_line_a : op / 2 ^ 12 ≡ 10 → Traps op m aline
  is_trap :
      run_table op ≡ some Instruction.trap_op
      → type_of op < 2
      → Traps op m (trap (type_of op * 2 ^ 3 + reg_of op))
  refused :
      (i : Instruction)
      → run_table op ≡ some i
      → is_privileged i ≡ true
      → m.s ≡ false
      → Traps op m priv_err

trap_small : (op : ℕ) → type_of op < 2 → type_of op * 2 ^ 3 + reg_of op < 16
unfolding reg_of
trap_small op low = let small = bit_and-mod 3 op in omega arith

line_a : (op : ℕ) → op / 2 ^ 12 ≡ 10 → run_table op ≡ some Instruction.aline_ex
line_a op line = let (branches, calls, constants) = run_table-lines op in calls line

traps-format0 :
    {Io : Type 0} (op : ℕ) (m : Machine Io) (n : ExceptionNumber) → Traps op m n → HasFormat0 n
traps-format0 op m _ (unassigned free) = by_illegal_op
traps-format0 op m _ (in_line_a line) = by_aline
traps-format0 op m _ (is_trap found low) =
    by_trap (type_of op * 2 ^ 3 + reg_of op) (trap_small op low)
traps-format0 op m _ (refused i found privileged user) = by_priv_err

module _ {Io : Type 0} (devices : Devices Io) (mmu : Mmu Io) (host : Host Io) (fuel : ℕ) where
  dispatched-trapped :
      (op : ℕ) (m : Machine Io) (n : ExceptionNumber)
      → Traps op m n
      → dispatched devices mmu host fuel op (run_table op) m ≡ raised n m
  unfolding execute aline_ex trap_op
  dispatched-trapped op m n (unassigned free) = rw free refl
  dispatched-trapped op m n (in_line_a line) = rw (line_a op line) refl
  dispatched-trapped op m n (is_trap found low) = rw found refl
  dispatched-trapped op m n (refused i found privileged user) =
      rw (found, execute-refused devices mmu host fuel i op m privileged user) refl

  -- A round without an interrupt, whose opcode is fetched and ends in one of these exceptions.
  pub record IsTrapped (op : ℕ) (m fetched : Machine Io) (n : ExceptionNumber) : Type 0 where
    pub awake : host.wait m ≡ ok tt m
    pub no_stop : host.rom_stop m.pc ≡ false
    pub no_function : host.rom_function (m.pc % 2 ^ 20) ≡ none
    pub uninterrupted : interrupted_by m ≡ none
    pub opcode : fetch devices mmu (prepared m.pc m) ≡ ok op fetched
    pub traps : Traps op fetched n

  round-trapped :
      (op : ℕ) (m fetched : Machine Io) (n : ExceptionNumber)
      → IsTrapped op m fetched n
      → run_round devices mmu host fuel m ≡ handled devices mmu host fuel (raised n fetched)
  unfolding run_round op_prologue
  round-trapped op m fetched n h =
      rw
        (
          h.awake,
          h.no_stop,
          h.no_function,
          h.uninterrupted,
          h.opcode,
          dispatched-trapped op fetched n h.traps,
        )
        refl

  -- With room for the frame on the supervisor's stack in RAM, the vector table in RAM, no translation
  -- enabled, an even handler and an even address to return to, a round of run_cpu without an interrupt
  -- whose opcode has no handler, is of the line A, is a TRAP, or is privileged in user mode, ends normally
  -- at the exception's handler, in supervisor mode, with the bus unlocked and the stack pointer eight
  -- bytes below the one stored for the supervisor; and do_rte from there, at any fuel above zero, ends
  -- normally, with the status register that the instruction had, at the low 16 bits of the address to
  -- return to, and with the stack pointer that was stored in USP, ISP or MSP for the instruction's mode,
  -- whatever A7 was.
  pub run_round-trapped :
      (op b : ℕ) (m fetched : Machine Io) (n : ExceptionNumber)
      → IsTrapped op m fetched n
      → IsReady b n fetched
      → bit (entry b n fetched) 0 ≡ false
      → bit (return_pc n fetched) 0 ≡ false
      → (after : Machine Io) × (run_round devices mmu host fuel m ≡ ok (some tt) after)
        × (after.pc ≡ entry b n fetched)
        × (after.s ≡ true)
        × (after.bus_lock ≡ false)
        × (after.a 7 ≡ b)
        × ((back : Machine Io) × (do_rte devices mmu (suc fuel) after ≡ ok (some tt) back)
            × (get_sr back ≡ get_sr fetched)
            × (back.a 7 ≡ stack_in_use fetched)
            × (back.pc ≡ return_pc n fetched % 2 ^ 16))
  unfolding get_sr
  run_round-trapped op b m fetched n trapped ready even even_return =
      let format = traps-format0 op fetched n trapped.traps in
      let unlocked : Machine Io = record fetched { bus_lock = false } in
      let unlocked_ready : IsReady b n unlocked = record {
        top = ready.top;
        room = ready.room;
        table = ready.table;
        is_bytes = ready.is_bytes;
        mask = ready.mask;
        tracing = ready.tracing;
      } in
      let (back, returned, status, stack, next) =
        do_rte-entered devices mmu fuel b n unlocked format unlocked_ready even_return in
      (
        entered_at b n unlocked,
        rw
            (
              round-trapped op m fetched n trapped,
              handle_exception-entered devices mmu b n fetched format ready even,
            )
            refl,
        refl,
        refl,
        refl,
        refl,
        (back, returned, status, stack, next),
      )
