-- ===== src/Instruction/Reloaded.antt =====
-- src/cpu/op_move.cc: MOVEM.L to (An), and MOVEM.L from (An) later, as whole instructions.
use newmacemu.Common.{
  ℕ, ◌^◌, ◌<◌, ◌≡◌, refl, sym, subst, ◌∙◌, arith, Bool, true, false, bit, ltb, leb, ◌&&◌,
  if◌then◌else◌, long,
}
use newmacemu.Machine.{Machine, ok}
use newmacemu.Bus.{Devices}
use newmacemu.Memory.{Mmu}
use newmacemu.Fetch.{get_r, fetch}
use newmacemu.EffectiveAddress.{ea_getaddr}
use newmacemu.Instruction.{reg_of, type_of}
use newmacemu.Instruction.Movem.{
  each_register, stored_up, loaded, begin_movem, store_base, load_base,
}
use newmacemu.Instruction.Saved.{
  saved, restored, HasSpace, Holds, saved-Holds, get_r-restored, each_register-stored,
  each_register-loaded,
}

full_range :
    (j x y : ℕ) (b : Bool)
    → j < 16
    → (if leb 0 j && (ltb j 16 && b) then x else y) ≡ (if b then x else y)
full_range j x y b small = ground arith

module _ {Io : Type 0} (devices : Devices Io) (mmu : Mmu Io) where
  -- A MOVEM with the mode (An) at its start: its opcode, its mask, the machine after the mask is fetched,
  -- and room for sixteen long words at the address.
  pub record IsAt (op regs : ℕ) (m fetched : Machine Io) : Type 0 where
    pub mask : fetch devices mmu m ≡ ok regs fetched
    pub indirect : type_of op ≡ 2
    pub fresh : fetched.movem_run ≡ false
    pub space : HasSpace 16 (fetched.a (reg_of op)) fetched

  abbrev pub base_of : ℕ → Machine Io → ℕ
  base_of op m = m.a (reg_of op)

  -- The machine in the loop.
  abbrev running : ℕ → Machine Io → Machine Io
  running op m = record m { ea = base_of op m; movem_run = true }

  -- RAM after the sixteen rounds of the store.
  unfoldable pub saved_ram : ℕ → ℕ → Machine Io → (ℕ → ℕ)
  saved_ram op regs m = saved regs 16 0 (base_of op m) (λ j. get_r j m) m.ram

  -- The instructions, from what their loops do.
  store_base-loop :
      (op regs end : ℕ) (q : ℕ → ℕ) (m fetched : Machine Io)
      → IsAt op regs m fetched
      → each_register
          (stored_up devices mmu long)
          regs
          16
          0
          (base_of op fetched)
          (running op fetched)
        ≡ ok end (record (running op fetched) { ram = q })
      → store_base devices mmu long op m
        ≡ ok tt (record (running op fetched) { movem_run = false; ram = q })
  unfolding store_base begin_movem ea_getaddr
  store_base-loop op regs end q m fetched start loop =
      rw (start.mask, start.fresh, start.indirect, loop) refl

  load_base-loop :
      (op regs end : ℕ) (m fetched ended : Machine Io)
      → IsAt op regs m fetched
      → each_register (loaded devices mmu long) regs 16 0 (base_of op fetched) (running op fetched)
        ≡ ok end ended
      → load_base devices mmu long op m ≡ ok tt (record ended { movem_run = false })
  unfolding load_base begin_movem ea_getaddr
  load_base-loop op regs end m fetched ended start loop =
      rw (start.mask, start.fresh, start.indirect, loop) refl

  -- MOVEM.L to (An), with 32-bit values in the registers, room for sixteen long words in RAM and no
  -- translation enabled, ends normally and changes RAM and `cpu.EA` alone; and a later MOVEM.L with the
  -- same mask from an (An) at the same address, on any machine with that RAM, room and no translation
  -- enabled, ends normally and gives every register of the mask the value that it had before the
  -- store, and leaves the others.
  pub load_base-store_base :
      (save load regs : ℕ) (m fetched m' fetched' : Machine Io)
      → IsAt save regs m fetched
      → ((j : ℕ) → get_r j fetched < 2 ^ 32)
      → IsAt load regs m' fetched'
      → base_of load fetched' ≡ base_of save fetched
      → fetched'.ram ≡ saved_ram save regs fetched
      → (store_base devices mmu long save m
          ≡ ok tt (record fetched {
            ea = base_of save fetched;
            movem_run = false;
            ram = saved_ram save regs fetched;
          }))
        × ((back : Machine Io) × (load_base devices mmu long load m' ≡ ok tt back)
            × ((j : ℕ)
                → j < 16
                → get_r j back ≡ (if bit regs j then get_r j fetched else get_r j fetched')))
  unfolding saved_ram
  load_base-store_base save load regs m fetched m' fetched' start small start' same still =
      let g : ℕ → ℕ = λ j. get_r j fetched in
      let held : Holds regs 16 0 (base_of load fetched') g fetched'.ram =
        subst (λ q. Holds regs 16 0 (base_of load fetched') g q) (sym still)
          (subst (λ a. Holds regs 16 0 a g (saved regs 16 0 (base_of save fetched) g fetched.ram))
            (sym same) (saved-Holds regs 16 0 (base_of save fetched) g fetched.ram small)) in
      (
        store_base-loop save regs _ _ m fetched start (
            each_register-stored devices mmu regs 16 0 (base_of save fetched) (running save fetched)
              start.space small),
        (
          record (restored regs 16 0 g (running load fetched')) { movem_run = false },
          load_base-loop load regs _ m' fetched' _ start' (
              each_register-loaded devices mmu regs 16 0 (base_of load fetched') g
                (running load fetched') start'.space held),
          λ j k.
              get_r-restored regs 16 0 j g (running load fetched') (omega arith) k
              ∙ full_range j (get_r j fetched) (get_r j fetched') (bit regs j) k,
        ),
      )
