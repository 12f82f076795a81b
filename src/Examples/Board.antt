-- ===== src/Examples/Board.antt =====
-- Concrete inputs of memory, stack, branches, division, CAS and bit fields: a board of 256 bytes of RAM
-- without devices, and an MMU that maps every address to itself.
use newmacemu.Common.{
  ℕ, ◌+◌, ◌-◌, ◌%◌, ◌^◌, ◌≡◌, refl, arith, true, false, ◌&&◌, leb, ltb, ◌==◌, if◌then◌else◌, bit,
  none, word, long,
}
use newmacemu.Ccr.{Ccr}
use newmacemu.Machine.{Ttr, AtcEntry, Paging, Control, IsOff, Machine, ok}
use newmacemu.Bus.{Devices, width, read_be, write_be, bus_read, bus_write}
use newmacemu.Bus.Endian.{bus_read-bus_write}
use newmacemu.Bus.Slot.{bus_read-slot}
use newmacemu.Memory.{Mmu}
use newmacemu.Memory.Access.{read_l, write_l}
use newmacemu.Memory.Alignment.{IsBytes, read_l-write_l}
use newmacemu.EffectiveAddress.{ea_read, ea_write}
use newmacemu.EffectiveAddress.Stacked.{ea_read-ea_write}
use newmacemu.Stack.Order.{HasRoom}
use newmacemu.Branch.{target, do_bsr, do_rts}
use newmacemu.Branch.Return.{do_rts-do_bsr}
use newmacemu.Division.{divu_ll}
use newmacemu.Division.Unsigned.{IsQuotient, divu_ll-IsQuotient}
use newmacemu.Compare.{cas}
use newmacemu.Compare.Swap.{cas_l_lem}
use newmacemu.Bitfield.{bfins_d}
use newmacemu.Bitfield.Ring.{bfins_d_lem}
use newmacemu.Rotate.Plain.{ring_up}

abbrev pub no_devices : Devices (Unit {0})
no_devices = record { io_read = λ w addr io. (none, io); io_write = λ w addr v io. (false, io) }

abbrev pub flat_mmu : Mmu (Unit {0})
flat_mmu = record {
  ptest_and_check = λ addr code w m. ok addr m;
  flat = λ addr code w m off h. refl;
}

abbrev pub no_ttr : Ttr
no_ttr = record { logic_base = 0; logic_mask = 0; e = false; s = 0; u = 0; cm = 0; w = false }

abbrev pub no_entry : AtcEntry
no_entry = record {
  laddr = 0;
  v = false;
  g = false;
  paddr = 0;
  pg_addr = 0;
  u = 0;
  s = false;
  cm = 0;
  m = false;
  w = false;
  r = false;
}

abbrev pub no_paging : Paging
no_paging = record {
  urp = 0;
  srp = 0;
  tcr_e = false;
  tcr_p = false;
  ittr = λ k. no_ttr;
  dttr = λ k. no_ttr;
  mmusr = 0;
  d_atc = λ sys k. no_entry;
  i_atc = λ sys k. no_entry;
  jit_tables = λ addr. false;
}

pub no_paging-IsOff : IsOff no_paging
no_paging-IsOff = record {
  no_tables = refl;
  no_code_window = λ k. refl;
  no_data_window = λ k. refl;
}

abbrev pub at_start : Control
at_start = record {
  msp = 0;
  isp = 0;
  usp = 0;
  i = 7;
  m = false;
  vbr = 0;
  cacr_de = false;
  cacr_ie = false;
}

abbrev pub quiet : Ccr
quiet = record { x = false; n = false; z = false; v = false; c = false }

-- The program counter is 0x12346, the stack pointer 0x80, and `cpu.EA` 0x41.
abbrev pub board : Machine (Unit {0})
board = record {
  d = λ n. 5;
  a = λ n. 0x80;
  ea = 0x41;
  pc = 0x12346;
  ccr = quiet;
  t = 0;
  s = true;
  sfc = 0;
  dfc = 0;
  ex_addr = 0;
  oldpc = 0x12342;
  fault_ssw = 0;
  bus_lock = false;
  must_trace = false;
  movem_run = false;
  inturrupt = none;
  ram = λ i. 0;
  ram_size = 0x100;
  rom = λ i. 0;
  rom_mask = 0xff;
  vram = λ i. 0;
  io = tt;
  paging = no_paging;
  control = at_start;
}

pub board-IsBytes : IsBytes board.ram
board-IsBytes i = omega arith

board-HasRoom : HasRoom 0x7c board
board-HasRoom = (refl, (omega arith, (omega arith, no_paging-IsOff)), board-IsBytes)

bus_read-bus_write_example :
    (after : Machine (Unit {0})) × (bus_write no_devices word 0x10 0x1234 board ≡ ok tt after)
    × (bus_read no_devices word 0x10 after ≡ ok 0x1234 after)
    × ((j : ℕ)
        → after.ram j
          ≡ (if leb 0x10 j && ltb j (0x10 + width word) then after.ram j else board.ram j))
bus_read-bus_write_example =
    bus_read-bus_write no_devices word 0x10 0x1234 board (omega arith) (omega arith) (omega arith)

bus_read-slot_example :
    (bus_read no_devices long 0xf9001000 board ≡ ok 0 board)
    × (bus_write no_devices long 0xf9001000 7 board ≡ ok tt board)
bus_read-slot_example = bus_read-slot no_devices long 0xf9001000 7 board (omega arith) (omega arith)

read_l-write_l_example :
    (after : Machine (Unit {0})) × (write_l no_devices flat_mmu 0x13 0xdeadbeef board ≡ ok tt after)
    × (read_l no_devices flat_mmu 0x13 after ≡ ok 0xdeadbeef after)
    × (after ≡ record board { ram = write_be long board.ram 0x13 0xdeadbeef })
read_l-write_l_example =
    read_l-write_l no_devices flat_mmu 0x13 0xdeadbeef board
      (omega arith, (omega arith, no_paging-IsOff)) board-IsBytes (omega arith)

-- The call from 0x12342 returns to 0x2346.
do_rts-do_bsr_example :
    (called : Machine (Unit {0})) × (do_bsr no_devices flat_mmu 0x100 board ≡ ok tt called)
    × (called.pc ≡ target board 0x100)
    × ((back : Machine (Unit {0})) × (do_rts no_devices flat_mmu called ≡ ok tt back)
        × (back.pc ≡ board.pc % 2 ^ 16)
        × (back.a 7 ≡ board.a 7))
do_rts-do_bsr_example =
    do_rts-do_bsr no_devices flat_mmu 0x7c 0x100 board board-HasRoom (omega arith) refl refl

divu_ll-IsQuotient_example : IsQuotient 32 quiet 0x100000007 3 (divu_ll quiet 0x100000007 3)
divu_ll-IsQuotient_example = divu_ll-IsQuotient quiet 0x100000007 3 (omega arith)

-- Memory holds 0 and the register 5, so the register takes the 0.
cas_l_lem_example :
    (after : Machine (Unit {0})) × (cas no_devices flat_mmu long 0x41 2 9 board ≡ ok tt after)
    × (after.ccr.z ≡ (read_be long board.ram 0x41 == 5))
    × (after.ram
        ≡ (if read_be long board.ram 0x41 == 5 then write_be long board.ram 0x41 9 else board.ram))
    × (after.d 2 ≡ read_be long board.ram 0x41)
cas_l_lem_example =
    cas_l_lem no_devices flat_mmu 2 9 board (omega arith, (omega arith, no_paging-IsOff))
      board-IsBytes (omega arith)

bfins_d_lem_example : bit (bfins_d quiet 0x12345678 28 8 0xab).value 29 ≡ (
    if leb (32 - 8) (ring_up 32 29 (28 % 32))
    then bit 0xab (ring_up 32 29 (28 % 32) - (32 - 8))
    else bit 0x12345678 29)
bfins_d_lem_example = bfins_d_lem quiet 0x12345678 28 8 0xab 29 (omega arith) (omega arith)

ea_read-ea_write_example :
    (after : Machine (Unit {0})) × (ea_write no_devices flat_mmu long 4 2 0xdeadbeef board
      ≡ ok tt after)
    × (after.a 2 ≡ 0x7c)
    × ((back : Machine (Unit {0})) × (ea_read no_devices flat_mmu long 3 2 false after
          ≡ ok 0xdeadbeef back)
        × (back.a 2 ≡ board.a 2)
        × (back.ea ≡ 0x7c))
ea_read-ea_write_example =
    ea_read-ea_write no_devices flat_mmu 2 0x7c 0xdeadbeef board refl
      (omega arith, (omega arith, no_paging-IsOff)) board-IsBytes (omega arith) refl
