-- ===== src/Examples/Exceptions.antt =====
-- Concrete inputs of exceptions and the status register.
use newmacemu.Common.{◌+◌, ◌*◌, ◌/◌, ◌%◌, ◌^◌, ◌≡◌, refl, arith, true, false, some, bit, ◌≤◌}
use newmacemu.Machine.{Machine, illegal_op, trap, ok, update}
use newmacemu.Status.{get_sr, set_sr, stack_in_use}
use newmacemu.Status.Restored.{get_sr-set_sr}
use newmacemu.Exception.{number, handle_exception}
use newmacemu.Bus.{read_be, write_be}
use newmacemu.Exception.Entry.{handle_exception-forgets}
use newmacemu.Exception.Settled.{settled, handle_exception-settled}
use newmacemu.Exception.Resumed.{by_trap, return_pc}
use newmacemu.Exception.Return.{do_rte}
use newmacemu.Exception.Restored.{IsReady, entry, do_rte-handle_exception}
use newmacemu.Examples.Board.{no_devices, flat_mmu, no_paging-IsOff, at_start, board, board-IsBytes}

get_sr-set_sr_example :
    get_sr (set_sr 0xffff board)
    ≡ 0xffff / 2 ^ 12 * 2 ^ 12 + 0xffff / 2 ^ 8 % 8 * 2 ^ 8 + 0xffff % 32
get_sr-set_sr_example = get_sr-set_sr 0xffff board (omega arith)

-- A user program with its stack at 0x80; the interrupt stack is at 0x40.
abbrev user_board : Machine (Unit {0})
user_board = record board { s = false; control = record at_start { usp = 0x80; isp = 0x40 } }

user_board-InRam : user_board.control.vbr + number (trap 3) * 4 + 4 ≤ user_board.ram_size
unfolding number
user_board-InRam = omega arith

user_board-entry : bit (entry 0x38 (trap 3) user_board) 0 ≡ false
unfolding read_be write_be number
user_board-entry = refl

user_board-IsReady : IsReady 0x38 (trap 3) user_board
user_board-IsReady = record {
  top = refl;
  room = omega arith;
  table = (user_board-InRam, (omega arith, no_paging-IsOff));
  is_bytes = board-IsBytes;
  mask = omega arith;
  tracing = omega arith;
}

do_rte-handle_exception_example :
    (entered : Machine (Unit {0})) × (handle_exception no_devices flat_mmu (trap 3) user_board
      ≡ ok tt entered)
    × (entered.pc ≡ entry 0x38 (trap 3) user_board)
    × (entered.s ≡ true)
    × (entered.a 7 ≡ 0x38)
    × ((back : Machine (Unit {0})) × (do_rte no_devices flat_mmu 1 entered ≡ ok (some tt) back)
        × (get_sr back ≡ get_sr user_board)
        × (back.a 7 ≡ stack_in_use user_board)
        × (back.pc ≡ return_pc (trap 3) user_board % 2 ^ 16))
do_rte-handle_exception_example =
    do_rte-handle_exception no_devices flat_mmu 0 0x38 (trap 3) user_board (by_trap 3 (omega arith))
      user_board-IsReady user_board-entry refl

handle_exception-forgets_example :
    handle_exception no_devices flat_mmu illegal_op (record board { a = update board.a 7 0x20 })
    ≡ handle_exception no_devices flat_mmu illegal_op board
handle_exception-forgets_example =
    handle_exception-forgets no_devices flat_mmu illegal_op 0x20 board

handle_exception-settled_example :
    settled (handle_exception no_devices flat_mmu illegal_op board) ≡ true
handle_exception-settled_example = handle_exception-settled no_devices flat_mmu illegal_op board
