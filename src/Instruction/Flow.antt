-- ===== src/Instruction/Flow.antt =====
-- src/cpu/op.cc: the instructions of control: LINK, UNLK, PEA, JSR, JMP, the returns, TRAP, TRAPV, STOP,
-- RESET, NOP, and the opcodes that only raise an exception.
use newmacemu.Common.{ℕ, ◌+◌, ◌*◌, ◌^◌, if◌then◌else◌, Option, none, some, word, sign_extend}
use newmacemu.Machine.{illegal_op, trapx, aline, fline, trap, ok, M, ◌>>=◌, pure, gets, modify}
use newmacemu.Bus.{Devices}
use newmacemu.Memory.{Mmu, offset}
use newmacemu.Stack.{sp, set_sp, jump, trace_branch, push32, pop32}
use newmacemu.Branch.{jump_traced, do_rtr, do_rtd, do_rts}
use newmacemu.Fetch.{fetch, fetch32}
use newmacemu.Status.{set_sr, priv_check, raise}
use newmacemu.Exception.Return.{do_rte}
use newmacemu.Paging.Handlers.{guarded}
use newmacemu.Instruction.{reg_of, type_of, set_a, address}

module _ {Io : Type 0} where
  unfoldable pub illegal : M Io (Unit {0})
  illegal = raise illegal_op

  unfoldable pub bkpt : M Io (Unit {0})
  bkpt = raise illegal_op

  unfoldable pub aline_ex : M Io (Unit {0})
  aline_ex = raise aline

  unfoldable pub fline_default : M Io (Unit {0})
  fline_default = raise fline

  -- `TRAP_ERROR(TYPE(op) << 3 | REG(op))`.
  unfoldable pub trap_op : ℕ → M Io (Unit {0})
  trap_op op = raise (trap (type_of op * 2 ^ 3 + reg_of op))

  unfoldable pub trapv : M Io (Unit {0})
  trapv m = if m.ccr.v then raise trapx m else ok tt m

  unfoldable pub nop : M Io (Unit {0})
  unfolding trace_branch
  nop = trace_branch

  -- The argument is bus_reset (src/io.cc), which resets the devices.
  unfoldable pub reset_op : M Io (Unit {0}) → M Io (Unit {0})
  reset_op bus_reset = do allowed ← priv_check; bus_reset

module _ {Io : Type 0} (devices : Devices Io) (mmu : Mmu Io) where
  -- `PUSH32(cpu.A[REG(op)]); cpu.A[REG(op)] = cpu.A[7]; cpu.A[7] += disp;`
  abbrev linked : ℕ → ℕ → M Io (Unit {0})
  linked op disp = do
    frame ← gets (λ m. m.a (reg_of op))
    pushed ← push32 devices mmu frame
    top ← gets sp
    set ← set_a (reg_of op) top
    addr ← gets (λ m. offset (sp m) disp)
    set_sp addr

  unfoldable pub link_w : ℕ → M Io (Unit {0})
  link_w op = do disp ← fetch devices mmu; linked op (sign_extend word disp)

  unfoldable pub link_l : ℕ → M Io (Unit {0})
  link_l op = do disp ← fetch32 devices mmu; linked op disp

  unfoldable pub unlk : ℕ → M Io (Unit {0})
  unlk op = do
    frame ← gets (λ m. m.a (reg_of op))
    moved ← set_sp frame
    old ← pop32 devices mmu
    set_a (reg_of op) old

  unfoldable pub pea : ℕ → M Io (Unit {0})
  pea op = do addr ← address devices mmu 0 op; push32 devices mmu addr

  unfoldable pub jsr : ℕ → M Io (Unit {0})
  unfolding jump trace_branch
  jsr op = do
    addr ← address devices mmu 0 op
    next ← gets (λ m. m.pc)
    pushed ← push32 devices mmu next
    jump_traced addr

  unfoldable pub jmp : ℕ → M Io (Unit {0})
  unfolding jump trace_branch
  jmp op = do addr ← address devices mmu 0 op; jump_traced addr

  -- The functions of branch.cc end with TRACE_BRANCH, and so do their handlers.
  unfoldable pub rtd : M Io (Unit {0})
  unfolding trace_branch
  rtd = do disp ← fetch devices mmu; done ← do_rtd devices mmu disp; trace_branch

  unfoldable pub rts : M Io (Unit {0})
  unfolding trace_branch
  rts = do done ← do_rts devices mmu; trace_branch

  unfoldable pub rtr : M Io (Unit {0})
  unfolding trace_branch
  rtr = do done ← do_rtr devices mmu; trace_branch

  -- After do_rte: `none` if its fuel did not last.
  abbrev returned : Option (Unit {0}) → M Io (Option (Unit {0}))
  returned none = pure none
  returned (some done) = trace_branch >>= λ traced. pure (some tt)

  unfoldable pub rte : ℕ → M Io (Option (Unit {0}))
  unfolding trace_branch
  rte fuel = do allowed ← priv_check; r ← do_rte devices mmu fuel; returned r

  -- The first argument is `cpu.run.stop(); cpu.run.wait();` with what other threads do meanwhile.
  unfoldable pub stop_impl : M Io (Unit {0}) → ℕ → M Io (Unit {0})
  stop_impl pause nw = guarded (modify (set_sr nw) >>= λ set. pause)

  unfoldable pub stop : M Io (Unit {0}) → M Io (Unit {0})
  unfolding stop_impl
  stop pause = do nw ← fetch devices mmu; stop_impl pause nw
