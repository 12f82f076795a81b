-- ===== src/Status.antt =====
-- The status register: GetSR, SaveSP, LoadSP and SetSR of src/cpu/op.cc, and PRIV_CHECK of
-- include/68040.hpp.
pub mod Restored
use newmacemu.Common.{ℕ, ◌*◌, ◌/◌, ◌%◌, ◌^◌, Bool, bit_and, bit_or, bit, to_num, if◌then◌else◌}
use newmacemu.Ccr.{get_ccr, set_ccr}
use newmacemu.Machine.{Machine, Control, priv_err, ExceptionNumber, Outcome, ok, raised, M, update}

-- RAISE(n), by a throw or by a longjmp, and the functions that only call it.
abbrev pub raise : {Io A : Type 0} → ExceptionNumber → M Io A
raise n m = raised n m

module _ {Io : Type 0} where
  unfoldable pub get_sr : Machine Io → ℕ
  get_sr m =
      let modes =
        bit_or (bit_or (get_ccr m.ccr) (m.control.i * 2 ^ 8)) (to_num m.control.m * 2 ^ 12) in
      bit_or (bit_or modes (to_num m.s * 2 ^ 13)) (m.t * 2 ^ 14) % 2 ^ 16

  -- `cpu.A[7]` goes to the stack pointer that is in use.
  unfoldable pub save_sp : Machine Io → Machine Io
  save_sp m =
      let c = m.control in
      let saved : Control =
        if m.s
        then (if c.m then record c { msp = m.a 7 } else record c { isp = m.a 7 })
        else record c { usp = m.a 7 } in
      record m { control = saved }

  -- The stack pointer that is in use.
  abbrev pub stack_in_use : Machine Io → ℕ
  stack_in_use m =
      if m.s then (if m.control.m then m.control.msp else m.control.isp) else m.control.usp

  unfoldable pub load_sp : Machine Io → Machine Io
  load_sp m = record m { a = update m.a 7 (stack_in_use m) }

  -- SetSR between its calls of SaveSP and LoadSP.
  abbrev pub modes_set : ℕ → Machine Io → Machine Io
  modes_set v m = record m {
    ccr = set_ccr (v % 2 ^ 8);
    control = record (m.control) { i = bit_and (v / 2 ^ 8) 7; m = bit v 12 };
    s = bit v 13;
    t = bit_and (v / 2 ^ 14) 3;
  }

  unfoldable pub set_sr : ℕ → Machine Io → Machine Io
  unfolding save_sp load_sp
  set_sr v m = load_sp (modes_set v (save_sp m))

  unfoldable pub priv_check : M Io (Unit {0})
  priv_check m = if m.s then ok tt m else raise priv_err m
