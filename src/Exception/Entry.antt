-- ===== src/Exception/Entry.antt =====
-- What an exception does with the stack pointer that it finds.
use newmacemu.Common.{fun_ext, ℕ, ◌≡◌, refl, ap, ◌==◌, Bool-cases, inl, inr, true}
use newmacemu.Machine.{Machine, ExceptionNumber, update}
use newmacemu.Bus.{Devices}
use newmacemu.Memory.{Mmu}
use newmacemu.Status.{get_sr, load_sp, stack_in_use}
use newmacemu.Exception.{handle_exception, frame_of}

-- Of two stores to the same element the first is lost.
update_twice : (f : ℕ → ℕ) (i v w j : ℕ) → update (update f i v) i w j ≡ update f i w j
update_twice f i v w j = elim (Bool-cases (j == i)) [
  | inl same ↦ rw same refl
  | inr other ↦ rw other refl
]

pub update-update : (f : ℕ → ℕ) (i v w : ℕ) → update (update f i v) i w ≡ update f i w
update-update f i v w = fun_ext λ j. update_twice f i v w j

module _ {Io : Type 0} (devices : Devices Io) (mmu : Mmu Io) where
  -- handle_exception does not save the stack pointer in use: for every exception, whatever the stack
  -- pointer was before, the outcome is the same, with the same machine.
  pub handle_exception-forgets :
      (n : ExceptionNumber) (x : ℕ) (m : Machine Io)
      → handle_exception devices mmu n (record m { a = update m.a 7 x })
        ≡ handle_exception devices mmu n m
  unfolding handle_exception get_sr load_sp
  handle_exception-forgets n x m =
      ap (λ f. frame_of devices mmu n (get_sr m) (record m { a = f; s = true; t = 0 }))
        (update-update m.a 7 x (stack_in_use (record m { s = true })))
