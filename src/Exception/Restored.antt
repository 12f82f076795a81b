-- ===== src/Exception/Restored.antt =====
-- handle_exception and do_rte one after the other.
use newmacemu.Common.{
  ℕ, suc, ◌+◌, ◌*◌, ◌%◌, ◌^◌, ◌<◌, ◌≤◌, ◌≡◌, refl, ap, sym, ◌∙◌, arith, Bool, true, false, bit,
  ◌==◌, if◌then◌else◌, Bool-cases, inl, inr, some, long,
}
use newmacemu.Machine.{Machine, ExceptionNumber, ok}
use newmacemu.Bus.{Devices}
use newmacemu.Memory.{Mmu}
use newmacemu.Memory.Alignment.{InRam, IsBytes}
use newmacemu.Status.{get_sr, set_sr, save_sp, load_sp, stack_in_use}
use newmacemu.Status.Restored.{set_sr-get_sr, get_sr-lt}
use newmacemu.Exception.{number, handle_exception}
use newmacemu.Exception.Frame.{at, frame0, handler, exception0-ram}
use newmacemu.Exception.Resumed.{
  HasFormat0, return_pc, vector_fits, frame_of-format0, back_at, do_rte-frame0,
}
use newmacemu.Exception.Return.{do_rte}

-- The machine in supervisor mode, without trace.
abbrev in_handler : {Io : Type 0} → Machine Io → Machine Io
in_handler m = record m { s = true; t = 0 }

-- A stack of the supervisor with room for a frame of eight bytes and a vector table in RAM, no
-- translation enabled, and I and T in range.
pub record IsReady {Io : Type 0} (b : ℕ) (n : ExceptionNumber) (m : Machine Io) : Type 0 where
  pub top : stack_in_use (record m { s = true }) ≡ b + 8
  pub room : b + 8 ≤ m.ram_size
  pub table : InRam long (m.control.vbr + number n * 4) m
  pub is_bytes : IsBytes m.ram
  pub mask : m.control.i < 8
  pub tracing : m.t < 4

-- RAM with the frame, and the handler's address.
abbrev pub framed : {Io : Type 0} → ℕ → ExceptionNumber → Machine Io → ℕ → ℕ
framed b n m = frame0 m.ram b (number n * 4) (return_pc n m) (get_sr m)

abbrev pub entry : {Io : Type 0} → ℕ → ExceptionNumber → Machine Io → ℕ
entry b n m = handler m (framed b n m) (number n)

-- The machine in the handler, its frame pushed.
abbrev pub entered_at : {Io : Type 0} → ℕ → ExceptionNumber → Machine Io → Machine Io
entered_at b n m = at (record (in_handler m) { pc = entry b n m }) b (framed b n m)

module _ {Io : Type 0} (devices : Devices Io) (mmu : Mmu Io) where
  pub handle_exception-entered :
      (b : ℕ) (n : ExceptionNumber) (m : Machine Io)
      → HasFormat0 n
      → IsReady b n m
      → bit (entry b n m) 0 ≡ false
      → handle_exception devices mmu n m ≡ ok tt (entered_at b n m)
  unfolding handle_exception load_sp
  handle_exception-entered b n m format ready even =
      rw
        (
          ready.top,
          frame_of-format0 devices mmu n (get_sr m) (at (in_handler m) (b + 8) m.ram) format,
          exception0-ram devices mmu b (number n) (return_pc n m) (get_sr m) m.ram (in_handler m)
              ready.room ready.table ready.is_bytes even,
        )
        refl

  same_sr : (next sr : ℕ) (x : Machine Io) → get_sr (back_at next sr x) ≡ get_sr (set_sr sr x)
  unfolding get_sr
  same_sr next sr x = elim (Bool-cases ((set_sr sr x).t == 1)) [
    | inl traced ↦ rw traced refl
    | inr quiet ↦ rw quiet refl
  ]

  same_pc : (next sr : ℕ) (x : Machine Io) → (back_at next sr x).pc ≡ next
  same_pc next sr x = refl

  same_sp : (next sr : ℕ) (x : Machine Io) → (back_at next sr x).a 7 ≡ (set_sr sr x).a 7
  same_sp next sr x = elim (Bool-cases ((set_sr sr x).t == 1)) [
    | inl traced ↦ rw traced refl
    | inr quiet ↦ rw quiet refl
  ]

  -- Back from the handler with its stack pointer as the exception found it, the stack pointer is the one
  -- that the mode before the exception keeps.
  sp_again :
      (top : ℕ) (q : ℕ → ℕ) (hdl : ℕ) (m : Machine Io)
      → stack_in_use (record m { s = true }) ≡ top
      → m.control.i < 8
      → m.t < 4
      → (set_sr (get_sr m) (at (record (in_handler m) { pc = hdl }) top q)).a 7 ≡ stack_in_use m
  unfolding set_sr save_sp load_sp
  sp_again top q hdl m e hi ht =
      let (whole, mode, stack) =
        set_sr-get_sr m (at (record (in_handler m) { pc = hdl }) top q) hi ht in
      let chosen = λ (t : Bool). if t then m.control.msp else m.control.isp in
      elim (Bool-cases m.s) [
        | inl super ↦ elim (Bool-cases m.control.m) [
          | inl master ↦ rw (mode, stack, super, master) (sym e ∙ ap chosen master)
          | inr interrupt ↦ rw (mode, stack, super, interrupt) (sym e ∙ ap chosen interrupt)
        ]
        | inr user ↦ elim (Bool-cases m.control.m) [
          | inl master ↦ rw (mode, user, master) refl
          | inr interrupt ↦ rw (mode, user, interrupt) refl
        ]
      ]

  pub do_rte-entered :
      (fuel b : ℕ) (n : ExceptionNumber) (m : Machine Io)
      → HasFormat0 n
      → IsReady b n m
      → bit (return_pc n m) 0 ≡ false
      → (back : Machine Io) × (do_rte devices mmu (suc fuel) (entered_at b n m) ≡ ok (some tt) back)
        × (get_sr back ≡ get_sr m)
        × (back.a 7 ≡ stack_in_use m)
        × (back.pc ≡ return_pc n m % 2 ^ 16)
  do_rte-entered fuel b n m format ready even_return =
      let hdl = entry b n m in
      let q = framed b n m in
      let sr = get_sr m in
      let arrived = record (in_handler m) { pc = hdl } in
      let ended = at arrived (b + 8) q in
      let (whole, mode, stack) = set_sr-get_sr m ended ready.mask ready.tracing in
      (
        back_at (return_pc n m % 2 ^ 16) sr ended,
        do_rte-frame0 devices mmu fuel b (number n * 4) (return_pc n m) sr m.ram arrived ready.room
            ready.table.1 ready.is_bytes (omega (arith, vector_fits n format)) (get_sr-lt m)
            even_return,
        same_sr (return_pc n m % 2 ^ 16) sr ended ∙ whole,
        same_sp (return_pc n m % 2 ^ 16) sr ended
            ∙ sp_again (b + 8) q hdl m ready.top ready.mask ready.tracing,
        same_pc (return_pc n m % 2 ^ 16) sr ended,
      )

  -- For an exception with a frame of format 0 that is no interrupt (an illegal or privileged
  -- instruction, A- and F-line, a format error, TRAP), with no translation enabled, I and T in range,
  -- room in RAM for the frame on the supervisor's stack, the vector table in RAM, an even handler and an
  -- even program counter to return to: handle_exception enters the handler in supervisor mode, with its
  -- stack pointer eight bytes lower; and do_rte, at any fuel above zero, then ends normally, with the
  -- status register as before the exception, the stack pointer that its mode keeps, and the low 16 bits
  -- of the saved program counter.
  pub do_rte-handle_exception :
      (fuel b : ℕ) (n : ExceptionNumber) (m : Machine Io)
      → HasFormat0 n
      → IsReady b n m
      → bit (entry b n m) 0 ≡ false
      → bit (return_pc n m) 0 ≡ false
      → (entered : Machine Io) × (handle_exception devices mmu n m ≡ ok tt entered)
        × (entered.pc ≡ entry b n m)
        × (entered.s ≡ true)
        × (entered.a 7 ≡ b)
        × ((back : Machine Io) × (do_rte devices mmu (suc fuel) entered ≡ ok (some tt) back)
            × (get_sr back ≡ get_sr m)
            × (back.a 7 ≡ stack_in_use m)
            × (back.pc ≡ return_pc n m % 2 ^ 16))
  do_rte-handle_exception fuel b n m format ready even even_return = (
    entered_at b n m,
    handle_exception-entered b n m format ready even,
    refl,
    refl,
    refl,
    do_rte-entered fuel b n m format ready even_return,
  )
