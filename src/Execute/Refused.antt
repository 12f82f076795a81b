-- ===== src/Execute/Refused.antt =====
-- The privileged instructions in user mode.
use newmacemu.Common.{ℕ, Bool, true, false, ◌≡◌, refl, arith}
use newmacemu.Machine.{Machine, priv_err, raised}
use newmacemu.Bus.{Devices}
use newmacemu.Memory.{Mmu}
use newmacemu.Status.{priv_check}
use newmacemu.Decoder.{Instruction}
use newmacemu.Paging.Handlers.{mmu_op, mmu_op-refused}
use newmacemu.Instruction.Immediate.{ori_w_sr, andi_w_sr, eori_w_sr}
use newmacemu.Instruction.Transfer.{moves, move_from_sr, move_to_sr, move_to_usp, move_from_usp}
use newmacemu.Instruction.Flow.{reset_op, rte}
use newmacemu.Execute.{Host, execute}

-- The privileged instructions of the 68040 without an FPU, but STOP, which takes its operand first.
abbrev pub is_privileged : Instruction → Bool
is_privileged Instruction.ori_w_sr = true
is_privileged Instruction.andi_w_sr = true
is_privileged Instruction.eori_w_sr = true
is_privileged (Instruction.moves w) = true
is_privileged Instruction.move_from_sr = true
is_privileged Instruction.move_to_sr = true
is_privileged Instruction.move_to_usp = true
is_privileged Instruction.move_from_usp = true
is_privileged Instruction.reset_op = true
is_privileged Instruction.rte = true
is_privileged (Instruction.mmu i) = true
is_privileged _ = false

module _ {Io : Type 0} (devices : Devices Io) (mmu : Mmu Io) (host : Host Io) (fuel : ℕ) where
  -- In user mode a privileged instruction raises a privilege violation and changes nothing.
  pub execute-refused :
      (i : Instruction) (op : ℕ) (m : Machine Io)
      → is_privileged i ≡ true
      → m.s ≡ false
      → execute devices mmu host fuel i op m ≡ raised priv_err m
  unfolding execute priv_check mmu_op ori_w_sr andi_w_sr eori_w_sr moves move_from_sr move_to_sr
      move_to_usp move_from_usp reset_op rte
  execute-refused Instruction.ori_w_sr op m here user = rw user refl
  execute-refused Instruction.andi_w_sr op m here user = rw user refl
  execute-refused Instruction.eori_w_sr op m here user = rw user refl
  execute-refused (Instruction.moves w) op m here user = rw user refl
  execute-refused Instruction.move_from_sr op m here user = rw user refl
  execute-refused Instruction.move_to_sr op m here user = rw user refl
  execute-refused Instruction.move_to_usp op m here user = rw user refl
  execute-refused Instruction.move_from_usp op m here user = rw user refl
  execute-refused Instruction.reset_op op m here user = rw user refl
  execute-refused Instruction.rte op m here user = rw user refl
  execute-refused (Instruction.mmu i) op m here user =
      rw (mmu_op-refused devices mmu i op m user) refl
  execute-refused _ op m here user = absurd (ground arith)
