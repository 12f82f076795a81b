-- ===== src/Fetch.antt =====
-- FETCH and FETCH32 of include/memory.hpp, and Cpu::R of include/68040.hpp.
use newmacemu.Common.{ℕ, ◌*◌, ◌^◌, ltb, bit_and, bit_or, if◌then◌else◌}
use newmacemu.Machine.{Machine, M, ◌>>=◌, pure, update}
use newmacemu.Bus.{Devices}
use newmacemu.Memory.{Mmu, offset}
use newmacemu.Memory.Access.{fetch_w}

-- `cpu.R(n)`, read and written.
abbrev pub get_r : {Io : Type 0} → ℕ → Machine Io → ℕ
get_r n m = if ltb n 8 then m.d (bit_and n 7) else m.a (bit_and n 7)

abbrev pub set_r : {Io : Type 0} → ℕ → ℕ → Machine Io → Machine Io
set_r n v m =
    if ltb n 8
    then record m { d = update m.d (bit_and n 7) v }
    else record m { a = update m.a (bit_and n 7) v }

module _ {Io : Type 0} (devices : Devices Io) (mmu : Mmu Io) where
  -- `FetchW(std::exchange(cpu.PC, cpu.PC + 2))`.
  unfoldable pub fetch : M Io ℕ
  fetch m = fetch_w devices mmu m.pc (record m { pc = offset m.pc 2 })

  unfoldable pub fetch32 : M Io ℕ
  unfolding fetch
  fetch32 = do high ← fetch; low ← fetch; pure (bit_or (high * 2 ^ 16) low)
