-- ===== src/Exception/Return.antt =====
-- src/cpu/exception.cc: do_rte.
use newmacemu.Common.{
  ℕ, zero, suc, ◌/◌, ◌^◌, true, false, bit, ◌==◌, if◌then◌else◌, Option, none, some,
}
use newmacemu.Machine.{trace, format_err, ok, M, bind, ◌>>=◌, pure, gets, modify, update}
use newmacemu.Bus.{Devices}
use newmacemu.Memory.{Mmu, offset}
use newmacemu.Memory.Access.{read_w}
use newmacemu.Stack.{sp, set_sp, jump, pop16, pop32}
use newmacemu.Status.{set_sr, raise}
use newmacemu.Exception.{ex_readl}

module _ {Io : Type 0} (devices : Devices Io) (mmu : Mmu Io) where
  -- do_rte after its `switch`.
  abbrev pub resume : ℕ → ℕ → M Io (Unit {0})
  resume sr next m =
      let m1 = set_sr sr m in jump next (if m1.t == 1 then record m1 { must_trace = true } else m1)

  -- The case of format 7 with CT: the trace is taken again.
  abbrev retrace : ℕ → ℕ → M Io (Unit {0})
  retrace sr next m =
      raise trace (record (set_sr sr (record m { a = update m.a 7 (offset (sp m) 52) })) {
        must_trace = false;
        pc = next;
      })

  -- The case of format 7 with CM: the MOVEM is taken up again.
  abbrev restarted : M Io (Unit {0})
  restarted m =
      bind (ex_readl devices mmu (sp m) m)
        λ operand. modify (λ m1. record m1 { ea = operand; movem_run = true })

  unfoldable pub access_return : ℕ → ℕ → M Io (Unit {0})
  unfolding set_sr jump
  access_return sr next m = bind (read_w devices mmu (offset (sp m) 4) m) λ ssw.
      if bit ssw 13 then retrace sr next else (λ m1.
        bind (if bit ssw 12 then restarted m1 else ok tt m1)
          λ done. gets sp >>= λ addr. set_sp (offset addr 52) >>= λ skipped. resume sr next)

  -- `none` if more throwaway frames follow each other than the fuel allows.
  unfoldable pub do_rte : ℕ → M Io (Option (Unit {0}))
  unfolding set_sr jump access_return
  do_rte zero m = ok none m
  do_rte (suc fuel) m =
      let again = do_rte fuel in
      bind (pop16 devices mmu m) λ sr. pop32 devices mmu >>= λ next. pop16 devices mmu >>= λ vec.
      if vec / 2 ^ 12 == 0
      then (resume sr next >>= λ done. pure (some tt))
      else if vec / 2 ^ 12 == 1
      then (modify (set_sr sr) >>= λ done. again)
      else if vec / 2 ^ 12 == 2
      then (gets sp >>= λ addr.
          set_sp (offset addr 4) >>= λ skipped. resume sr next >>= λ done. pure (some tt))
      else if vec / 2 ^ 12 == 3
      then (gets sp >>= λ addr.
          set_sp (offset addr 4) >>= λ skipped. resume sr next >>= λ done. pure (some tt))
      else if vec / 2 ^ 12 == 7
      then (access_return sr next >>= λ done. pure (some tt))
      else raise format_err
