-- ===== src/Branch.antt =====
-- src/cpu/branch.cc. A displacement is the bit pattern of its `int`; a target is `cpu.oldpc + 2 + ix`.
pub mod Return
use newmacemu.Common.{ℕ, ◌+◌, ◌-◌, ◌%◌, ◌^◌, Bool, not, ◌==◌, if◌then◌else◌, word, sign_extend}
use newmacemu.Ccr.{set_ccr}
use newmacemu.Machine.{Machine, Outcome, ok, M, bind, ◌>>=◌, pure, gets, modify, update}
use newmacemu.Bus.{Devices}
use newmacemu.Memory.{Mmu}
use newmacemu.Stack.{sp, set_sp, jump, trace_branch, store, push32, pop16, pop32}

abbrev pub target : {Io : Type 0} → Machine Io → ℕ → ℕ
target m ix = (m.oldpc + 2 + ix) % 2 ^ 32

-- `JUMP(...); TRACE_BRANCH();`
abbrev pub jump_traced : {Io : Type 0} → ℕ → M Io (Unit {0})
jump_traced next = do done ← jump next; trace_branch

unfoldable pub do_bra : {Io : Type 0} → ℕ → M Io (Unit {0})
unfolding jump trace_branch
do_bra ix m = jump_traced (target m ix) m

unfoldable pub do_bcc : {Io : Type 0} → Bool → ℕ → M Io (Unit {0})
unfolding jump trace_branch
do_bcc cond ix m = if cond then jump_traced (target m ix) m else ok tt m

-- `int16_t dn = cpu.D[reg]; STORE_W(cpu.D[reg], --dn)`.
abbrev pub counted : {Io : Type 0} → Machine Io → ℕ → ℕ
counted m reg = (m.d reg + 2 ^ 16 - 1) % 2 ^ 16

unfoldable pub do_dbcc : {Io : Type 0} → Bool → ℕ → ℕ → M Io (Unit {0})
unfolding jump trace_branch
do_dbcc cond reg disp m =
    if not cond
    then (let dn : ℕ = counted m reg in
        let m1 = record m { d = update m.d reg (store word (m.d reg) dn) } in
        if not (dn == 0xffff) then jump_traced (target m1 (sign_extend word disp)) m1 else ok tt m1)
    else ok tt m

module _ {Io : Type 0} (devices : Devices Io) (mmu : Mmu Io) where
  unfoldable pub do_bsr : ℕ → M Io (Unit {0})
  unfolding jump trace_branch
  do_bsr ix = do
    old ← gets (λ m. m.pc)
    done ← push32 devices mmu old
    λ m. jump_traced (target m ix) m

  unfoldable pub do_rtr : M Io (Unit {0})
  unfolding jump trace_branch
  do_rtr = do
    flags ← pop16 devices mmu
    done ← modify (λ m. record m { ccr = set_ccr (flags % 2 ^ 8) })
    next ← pop32 devices mmu
    jump_traced next

  -- The displacement is added to the stack pointer after the jump.
  unfoldable pub do_rtd : ℕ → M Io (Unit {0})
  unfolding jump trace_branch
  do_rtd disp = do
    next ← pop32 devices mmu
    jumped ← jump next
    addr ← gets (λ m. (sp m + sign_extend word disp) % 2 ^ 32)
    done ← set_sp addr
    trace_branch

  unfoldable pub do_rts : M Io (Unit {0})
  unfolding jump trace_branch
  do_rts = do next ← pop32 devices mmu; jump_traced next
