-- ===== src/Branch/Return.antt =====
-- Subroutine calls and returns.
use newmacemu.Common.{
  ℕ, ◌%◌, ◌^◌, ◌<◌, ◌≡◌, refl, arith, true, false, bit, ◌==◌, if◌then◌else◌, Bool-cases, inl, inr,
}
use newmacemu.Machine.{Machine, ok, update}
use newmacemu.Bus.{Devices}
use newmacemu.Memory.{Mmu}
use newmacemu.Stack.{jump, trace_branch}
use newmacemu.Stack.Order.{HasRoom, after_push, push32-ram, pop32-pushed}
use newmacemu.Branch.{target, jump_traced, do_bsr, do_rts}

-- The machine after a jump that is traced.
abbrev pub arrived : {Io : Type 0} → ℕ → Machine Io → Machine Io
arrived next m = record m { pc = next; must_trace = if m.t == 1 then true else m.must_trace }

even_jump :
    {Io : Type 0} (next : ℕ) (m : Machine Io)
    → bit next 0 ≡ false
    → jump_traced next m ≡ ok tt (arrived next m)
unfolding jump trace_branch
even_jump next m h = elim (Bool-cases (m.t == 1)) [
  | inl traced ↦ rw (h, traced) refl
  | inr quiet ↦ rw (h, quiet) refl
]

module _ {Io : Type 0} (devices : Devices Io) (mmu : Mmu Io) where
  -- With room in RAM below the stack pointer, an even program counter and an even target, and no
  -- translation enabled, do_bsr goes to the target and do_rts then ends normally with the
  -- stack pointer restored, but at the low 16 bits of the program counter that do_bsr saved.
  pub do_rts-do_bsr :
      (base ix : ℕ) (m : Machine Io)
      → HasRoom base m
      → m.pc < 2 ^ 32
      → bit m.pc 0 ≡ false
      → bit (target m ix) 0 ≡ false
      → (called : Machine Io) × (do_bsr devices mmu ix m ≡ ok tt called)
        × (called.pc ≡ target m ix)
        × ((back : Machine Io) × (do_rts devices mmu called ≡ ok tt back)
            × (back.pc ≡ m.pc % 2 ^ 16)
            × (back.a 7 ≡ m.a 7))
  unfolding do_bsr do_rts
  do_rts-do_bsr base ix m room small even even_target =
      let called = arrived (target m ix) (after_push m base m.pc) in
      let popped : Machine Io = record called { a = update called.a 7 (m.a 7) } in
      let low : bit (m.pc % 2 ^ 16) 0 ≡ false = ground arith in
      (
        called,
        rw (push32-ram devices mmu base m.pc m room)
            (even_jump (target m ix) (after_push m base m.pc) even_target),
        refl,
        (
          arrived (m.pc % 2 ^ 16) popped,
          rw (pop32-pushed devices mmu base m.pc m called room small refl refl refl refl)
              (even_jump (m.pc % 2 ^ 16) popped low),
          refl,
          refl,
        ),
      )
