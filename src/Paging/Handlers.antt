-- ===== src/Paging/Handlers.antt =====
-- src/cpu/68040_mmu.cc, its last part: the instructions, with FETCH of include/memory.hpp.
use newmacemu.Common.{ℕ, ◌/◌, ◌^◌, bit_and, Option, none, some, true, false, ◌≡◌, refl}
use newmacemu.Machine.{Machine, Paging, illegal_op, priv_err, raised, ok, M, bind, ◌>>=◌, modify}
use newmacemu.Bus.{Devices}
use newmacemu.Memory.{Mmu}
use newmacemu.Fetch.{get_r, set_r, fetch}
use newmacemu.Stack.{trace_branch}
use newmacemu.Status.{raise, priv_check}
use newmacemu.Paging.Flush.{
  pflushn_impl, pflush_impl, pflushan_impl, pflusha_impl, cinvl_i, cinvp_i, cinva_i,
}
use newmacemu.Paging.Registers.{movec_from_cr_impl, movec_to_cr_impl, op_ptest}

-- `cpu.A[REG(op)]`.
abbrev address_of : {Io : Type 0} → ℕ → Machine Io → ℕ
address_of op m = m.a (bit_and op 7)

-- `PRIV_CHECK(); ... TRACE_BRANCH();`
abbrev pub guarded : {Io : Type 0} → M Io (Unit {0}) → M Io (Unit {0})
guarded body m = bind (priv_check m) λ allowed. body >>= λ done. trace_branch

-- A change of the caches and the tables.
abbrev paged : {Io : Type 0} → (Machine Io → Paging) → M Io (Unit {0})
paged f = modify (λ m. record m { paging = f m })

-- The suffixes _dc, _ic and _bc.
pub data Caches : Type 0 where
  dc ic bc : Caches

-- The functions of `namespace OP` in the file.
pub data MmuInstruction : Type 0 where
  cinvl cinvp cinva cpushl cpushp cpusha : Caches → MmuInstruction
  pflushn pflush pflushan pflusha ptestr ptestw movec_from_cr movec_to_cr : MmuInstruction

-- The data cache is not implemented: its functions are empty.
abbrev on_caches : {Io : Type 0} → Caches → (Machine Io → Paging) → M Io (Unit {0})
on_caches dc f = paged (λ m. m.paging)
on_caches ic f = paged f
on_caches bc f = paged f

module _ {Io : Type 0} (devices : Devices Io) (mmu : Mmu Io) where
  -- The registers' number in the extension word.
  abbrev pub register_of : ℕ → ℕ
  register_of extw = bit_and (extw / 2 ^ 12) 15

  abbrev received : ℕ → Option (ℕ × Machine Io) → M Io (Unit {0})
  received n (some (v, m1)) m = ok tt (set_r n v m1)
  received n none m = raise illegal_op m

  abbrev sent : Option (Machine Io) → M Io (Unit {0})
  sent (some m1) m = ok tt m1
  sent none m = raise illegal_op m

  abbrev movec_from_body : M Io (Unit {0})
  movec_from_body = fetch devices mmu >>= λ extw m.
      received (register_of extw) (movec_from_cr_impl (bit_and extw 0xfff) m) m

  abbrev movec_to_body : M Io (Unit {0})
  movec_to_body = fetch devices mmu >>= λ extw m.
      sent (movec_to_cr_impl (bit_and extw 0xfff) (get_r (register_of extw) m) m) m

  -- The instruction with its opcode.
  unfoldable pub mmu_op : MmuInstruction → ℕ → M Io (Unit {0})
  unfolding trace_branch priv_check op_ptest
  mmu_op (cinvl c) op = guarded (on_caches c (λ m. cinvl_i (address_of op m) m.paging))
  mmu_op (cinvp c) op = guarded (on_caches c (λ m. cinvp_i (address_of op m) m.paging))
  mmu_op (cinva c) op = guarded (on_caches c (λ m. cinva_i m.paging))
  mmu_op (cpushl c) op = guarded (on_caches c (λ m. cinvl_i (address_of op m) m.paging))
  mmu_op (cpushp c) op = guarded (on_caches c (λ m. cinvp_i (address_of op m) m.paging))
  mmu_op (cpusha c) op = guarded (on_caches c (λ m. cinva_i m.paging))
  mmu_op pflushn op = guarded (paged (λ m. pflushn_impl m.dfc (address_of op m / 2 ^ 12) m.paging))
  mmu_op pflush op = guarded (paged (λ m. pflush_impl m.dfc (address_of op m / 2 ^ 12) m.paging))
  mmu_op pflushan op = guarded (paged (λ m. pflushan_impl m.dfc m.paging))
  mmu_op pflusha op = guarded (paged (λ m. pflusha_impl m.dfc m.paging))
  mmu_op ptestr op = guarded (λ m. op_ptest devices (address_of op m) false m)
  mmu_op ptestw op = guarded (λ m. op_ptest devices (address_of op m) true m)
  mmu_op movec_from_cr op = guarded movec_from_body
  mmu_op movec_to_cr op = guarded movec_to_body

  -- In user mode every instruction of the MMU and the caches, and MOVEC in both directions, raises a
  -- privilege violation and changes nothing.
  pub mmu_op-refused :
      (i : MmuInstruction) (op : ℕ) (m : Machine Io)
      → m.s ≡ false
      → mmu_op i op m ≡ raised priv_err m
  unfolding mmu_op priv_check
  mmu_op-refused (cinvl c) op m user = rw user refl
  mmu_op-refused (cinvp c) op m user = rw user refl
  mmu_op-refused (cinva c) op m user = rw user refl
  mmu_op-refused (cpushl c) op m user = rw user refl
  mmu_op-refused (cpushp c) op m user = rw user refl
  mmu_op-refused (cpusha c) op m user = rw user refl
  mmu_op-refused pflushn op m user = rw user refl
  mmu_op-refused pflush op m user = rw user refl
  mmu_op-refused pflushan op m user = rw user refl
  mmu_op-refused pflusha op m user = rw user refl
  mmu_op-refused ptestr op m user = rw user refl
  mmu_op-refused ptestw op m user = rw user refl
  mmu_op-refused movec_from_cr op m user = rw user refl
  mmu_op-refused movec_to_cr op m user = rw user refl
