-- ===== src/Run.antt =====
-- src/cpu/run.cc: op_prologue, run_op and the loop of run_cpu.
pub mod Trapped
use newmacemu.Common.{
  ℕ, zero, suc, ◌%◌, ◌^◌, Bool, true, false, ◌||◌, ltb, ◌==◌, if◌then◌else◌, Option, none, some,
}
use newmacemu.Machine.{
  Machine, ExceptionNumber, irq_lv, trace, illegal_op, Outcome, ok, ptest_error, raised, halted, M,
  bind, ◌>>=◌, ◌>>◌, pure, gets, modify,
}
use newmacemu.Bus.{Devices}
use newmacemu.Memory.{Mmu}
use newmacemu.Fetch.{fetch}
use newmacemu.Status.{raise}
use newmacemu.Exception.{handle_exception}
use newmacemu.Decoder.{Instruction}
use newmacemu.Decoder.Table.{run_table}
use newmacemu.Execute.{Host, execute, done}

-- `int i = cpu.inturrupt.load(); i == 7 || i > cpu.I`.
abbrev pub interrupted_by : {Io : Type 0} → Machine Io → Option ℕ
interrupted_by m = allowed m.control.i m.inturrupt
  where
    allowed : ℕ → Option ℕ → Option ℕ
    allowed mask none = none
    allowed mask (some i) = if i == 7 || ltb mask i then some i else none

-- op_prologue from the test of movem_run on.
abbrev pub prepared : {Io : Type 0} → ℕ → Machine Io → Machine Io
prepared at_ m = record m {
  ea = if m.movem_run then m.ea else 0;
  must_trace = m.t == 2;
  oldpc = at_;
  pc = at_;
}

abbrev taken : {Io : Type 0} → Option ℕ → ℕ → M Io (Unit {0})
taken none at_ m = ok tt (prepared at_ m)
taken (some i) at_ m = raise (irq_lv i) (record m { inturrupt = none })

unfoldable pub op_prologue : {Io : Type 0} → ℕ → M Io (Unit {0})
op_prologue at_ m = taken (interrupted_by m) at_ m

module _ {Io : Type 0} (devices : Devices Io) (mmu : Mmu Io) (host : Host Io) (fuel : ℕ) where
  -- `if(auto p = run_table[op]) { (*p)(op); } else { ILLEGAL_OP(); }`
  abbrev pub dispatched : ℕ → Option Instruction → M Io (Option (Unit {0}))
  dispatched op none m = raise illegal_op m
  dispatched op (some i) m = execute devices mmu host fuel i op m

  -- `if(std::exchange(cpu.must_trace, false)) TRACE();`
  abbrev pub traced : Option (Unit {0}) → M Io (Option (Unit {0}))
  traced none m = ok none m
  traced (some finished) m =
      if m.must_trace then raise trace (record m { must_trace = false }) else ok (some tt) m

  abbrev run_instruction : M Io (Option (Unit {0}))
  run_instruction m =
      bind (op_prologue m.pc m)
        λ prologue. fetch devices mmu >>= λ op. dispatched op (run_table op) >>= λ r. traced r

  -- A function of rom_funcs runs while the CPU is stopped; run_cpu waits for it before it goes on.
  abbrev called : Option (M Io (Unit {0})) → M Io (Option (Unit {0}))
  called none = run_instruction
  called (some f) = host.stop >> f >> pure (some tt)

  unfoldable pub run_op : M Io (Option (Unit {0}))
  unfolding op_prologue
  run_op m = called (host.rom_function (m.pc % 2 ^ 20)) m

  -- The `catch` of run_cpu.
  abbrev pub handled : Outcome Io (Option (Unit {0})) → Outcome Io (Option (Unit {0}))
  handled (ok r m) = ok r m
  handled (ptest_error code m) = ptest_error code m
  handled (raised n m) =
      bind (handle_exception devices mmu n m)
        λ entered. modify (λ m1. record m1 { bus_lock = false }) >>= λ unlocked. pure (some tt)
  handled (halted m) = halted m

  -- A round of the loops of run_cpu.
  abbrev pub round_body : M Io (Option (Unit {0}))
  round_body m = bind (host.wait m) λ woken m1.
      if host.rom_stop m1.pc then (bind (host.stop m1) λ stopped. pure (some tt)) else run_op m1

  unfoldable pub run_round : M Io (Option (Unit {0}))
  unfolding run_op
  run_round m = handled (round_body m)

  -- run_cpu for so many rounds.
  unfoldable pub run_cpu : ℕ → M Io (Option (Unit {0}))
  unfolding run_round
  run_cpu zero m = ok (some tt) m
  run_cpu (suc rounds) m = bind (run_round m) (continued (run_cpu rounds))
    where
      continued : M Io (Option (Unit {0})) → Option (Unit {0}) → M Io (Option (Unit {0}))
      continued rest none m = ok none m
      continued rest (some finished) m = rest m
