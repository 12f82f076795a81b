-- ===== src/Examples/Mmu.antt =====
-- Concrete inputs of the MMU and its instructions.
use newmacemu.Common.{
  ◌^◌, ◌*◌, ◌/◌, ◌≡◌, ◌⊎◌, refl, arith, true, false, ◌&&◌, if◌then◌else◌, none, some,
}
use newmacemu.Machine.{Paging, Ttr, ptest_error, Machine, ok}
use newmacemu.Paging.Search.{ptest_and_check}
use newmacemu.Paging.Flat.{ptest_and_check-flat}
use newmacemu.Paging.Windows.{IsOpen, ptest_and_check-window}
use newmacemu.Paging.Flush.{page_size, cinvl_i, cinvp_i}
use newmacemu.Paging.Erased.{forgotten, cinv_i-forgets}
use newmacemu.Paging.Registers.{
  ControlRegister, control_register, movec_to_cr_impl, movec_from_cr_impl,
}
use newmacemu.Paging.Control.{implemented, movec_from-movec_to}
use newmacemu.Examples.Board.{no_ttr, no_devices, no_paging, no_paging-IsOff, no_entry, board}

ptest_and_check-flat_example :
    ptest_and_check no_devices 0x12345678 false true board ≡ ok 0x12345678 board
ptest_and_check-flat_example =
    ptest_and_check-flat no_devices 0x12345678 false true board no_paging-IsOff (omega arith)

-- Every address is in the window, which is write-protected.
abbrev window : Ttr
window = record no_ttr { logic_mask = 0xff; e = true; s = 2; w = true }

abbrev windowed : Machine (Unit {0})
windowed = record board { paging = record no_paging { tcr_e = true; dttr = λ k. window } }

window-IsOpen : IsOpen window (0x12345678 / 2 ^ 12) true
window-IsOpen = record { enabled = refl; mode = refl; inside = refl }

ptest_and_check-window_example :
    ptest_and_check no_devices 0x12345678 false true windowed
    ≡ (if true && true then ptest_error (2 ^ 10) windowed else ok 0x12345678 windowed)
ptest_and_check-window_example =
    ptest_and_check-window no_devices 0x12345678 true windowed (omega arith) window-IsOpen

-- A global line of the user's data cache is dropped by PFLUSHA only.
abbrev global_lines : Paging
global_lines = record no_paging { d_atc = λ sys k. record no_entry { v = true; g = true } }

cinv_i-forgets_example :
    ((cinvl_i 0xfffffff8 no_paging).jit_tables 0xfffffffa ≡ (
      if forgotten (0xfffffff8 / 16 * 16) 16 0xfffffffa
      then false
      else no_paging.jit_tables 0xfffffffa))
    × ((cinvp_i 0xfffffff8 no_paging).jit_tables 0xfffffffa ≡ (
        if forgotten
          (0xfffffff8 / page_size no_paging * page_size no_paging)
          (page_size no_paging)
          0xfffffffa
        then false
        else no_paging.jit_tables 0xfffffffa))
cinv_i-forgets_example = cinv_i-forgets 0xfffffff8 no_paging 0xfffffffa (omega arith)

-- VBR.
movec_from-movec_to_example :
    ((movec_to_cr_impl 0x801 0x4000 board ≡ none) × (movec_from_cr_impl 0x801 board ≡ none))
    ⊎ ((r : ControlRegister) × (after : Machine (Unit {0})) × (last : Machine (Unit {0}))
        × (control_register 0x801 ≡ some r)
        × (movec_to_cr_impl 0x801 0x4000 board ≡ some after)
        × (movec_from_cr_impl 0x801 after ≡ some (implemented r 0x4000, last)))
movec_from-movec_to_example = movec_from-movec_to 0x801 0x4000 board (omega arith) (omega arith)
