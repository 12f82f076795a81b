-- ===== src/Instruction/Movem.antt =====
-- src/cpu/op_move.cc: MOVEM, which is taken up again at `cpu.EA` after an access fault.
use newmacemu.Common.{
  ℕ, zero, suc, ◌-◌, true, false, bit_and, bit, ltb, if◌then◌else◌, Size, word, wrap, sign_extend,
}
use newmacemu.Machine.{Machine, ok, M, bind, ◌>>=◌, pure, gets, modify, update}
use newmacemu.Bus.{Devices}
use newmacemu.Memory.{Mmu, offset}
use newmacemu.Stack.{below, store}
use newmacemu.Compare.{read, write}
use newmacemu.Fetch.{get_r, set_r, fetch}
use newmacemu.EffectiveAddress.{bytes}
use newmacemu.Instruction.{reg_of, set_a, address}

-- `for(int i = 0; i < 16; ++i) if(regs & 1 << i) { ... }` with n rounds left: the body has the round's
-- number and the address, and gives the next address.
unfoldable pub each_register : {Io : Type 0} → (ℕ → ℕ → M Io ℕ) → ℕ → ℕ → ℕ → ℕ → M Io ℕ
each_register body regs zero i addr m = ok addr m
each_register body regs (suc n) i addr m =
    bind (if bit regs i then body i addr m else ok addr m) (each_register body regs n (suc i))

-- The value that a register gets: a word in an address register is extended.
unfoldable pub load_register : {Io : Type 0} → Size → ℕ → ℕ → Machine Io → Machine Io
load_register word i v m =
    if ltb 7 i
    then record m { a = update m.a (bit_and i 7) (sign_extend word v) }
    else record m { d = update m.d i (store word (m.d i) v) }
load_register _ i v m = set_r i v m

module _ {Io : Type 0} (devices : Devices Io) (mmu : Mmu Io) where
  -- `if(!cpu.movem_run) { cpu.EA = ...; cpu.movem_run = true; }`
  unfoldable pub begin_movem : M Io ℕ → M Io (Unit {0})
  begin_movem first m =
      if m.movem_run
      then ok tt m
      else bind (first m) λ addr. modify (λ m1. record m1 { ea = addr; movem_run = true })

  abbrev finish_movem : M Io (Unit {0})
  finish_movem = modify (λ m. record m { movem_run = false })

  -- The bodies of the loops.
  abbrev pub stored_down : Size → ℕ → ℕ → M Io ℕ
  stored_down w i addr m =
      bind (write devices mmu w addr (wrap w (get_r (15 - i) m)) m)
        λ done. pure (below addr (bytes w))

  abbrev pub stored_up : Size → ℕ → ℕ → M Io ℕ
  stored_up w i addr m =
      bind (write devices mmu w addr (wrap w (get_r i m)) m) λ done. pure (offset addr (bytes w))

  abbrev pub loaded : Size → ℕ → ℕ → M Io ℕ
  loaded w i addr m =
      bind (read devices mmu w addr m)
        λ v. modify (load_register w i v) >>= λ done. pure (offset addr (bytes w))

  -- The address is `cpu.A[reg]`, before and after the load.
  abbrev pub loaded_by : Size → ℕ → ℕ → ℕ → M Io ℕ
  loaded_by w reg i addr m = bind (read devices mmu w (m.a reg) m) λ v.
      modify (load_register w i v) >>= λ done.
      modify (λ m1. record m1 { a = update m1.a reg (offset (m1.a reg) (bytes w)) }) >>= λ stepped.
      gets (λ m1. m1.a reg)

  -- movem_w_store_decr, movem_l_store_decr.
  unfoldable pub store_decr : Size → ℕ → M Io (Unit {0})
  store_decr w op = do
    regs ← fetch devices mmu
    begun ← begin_movem (λ m.
        bind (set_a (reg_of op) (below (m.a (reg_of op)) (bytes w)) m)
          λ done. gets (λ m1. m1.a (reg_of op)))
    first ← gets (λ m. m.ea)
    last ← each_register (stored_down w) regs 16 0 first
    set ← set_a (reg_of op) (offset last (bytes w))
    finish_movem

  -- movem_w_store_base, movem_l_store_base.
  unfoldable pub store_base : Size → ℕ → M Io (Unit {0})
  store_base w op = do
    regs ← fetch devices mmu
    begun ← begin_movem (address devices mmu (bytes w) op)
    first ← gets (λ m. m.ea)
    last ← each_register (stored_up w) regs 16 0 first
    finish_movem

  -- movem_w_load_incr, movem_l_load_incr.
  unfoldable pub load_incr : Size → ℕ → M Io (Unit {0})
  load_incr w op = do
    regs ← fetch devices mmu
    begun ← begin_movem (gets (λ m. m.a (reg_of op)))
    first ← gets (λ m. m.ea)
    set ← set_a (reg_of op) first
    last ← each_register (loaded_by w (reg_of op)) regs 16 0 first
    finish_movem

  -- movem_w_load_base, movem_l_load_base.
  unfoldable pub load_base : Size → ℕ → M Io (Unit {0})
  load_base w op = do
    regs ← fetch devices mmu
    begun ← begin_movem (address devices mmu (bytes w) op)
    first ← gets (λ m. m.ea)
    last ← each_register (loaded w) regs 16 0 first
    finish_movem
