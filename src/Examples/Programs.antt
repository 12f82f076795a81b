-- ===== src/Examples/Programs.antt =====
-- Concrete inputs of the instructions, the table of opcodes and the loop of the CPU.
use newmacemu.Common.{
  ℕ, ◌+◌, ◌*◌, ◌%◌, ◌^◌, ◌/◌, ◌≤◌, ◌<◌, ◌≡◌, refl, arith, true, false, bit, if◌then◌else◌, none,
  some, word, long,
}
use newmacemu.Machine.{Machine, priv_err, trap, raised, ok, pure, update}
use newmacemu.Arithmetic.{cmp}
use newmacemu.Arithmetic.Sum.{IsSum}
use newmacemu.Bus.{read_be, write_be, bus_read}
use newmacemu.Memory.{offset, read_w_impl}
use newmacemu.Memory.Access.{fetch_w}
use newmacemu.Memory.Alignment.{IsBytes}
use newmacemu.Stack.Order.{pushed}
use newmacemu.Status.{get_sr, stack_in_use}
use newmacemu.Exception.{number}
use newmacemu.Exception.Return.{do_rte}
use newmacemu.Exception.Resumed.{return_pc}
use newmacemu.Exception.Restored.{IsReady, entry}
use newmacemu.Fetch.{get_r, fetch}
use newmacemu.Instruction.{reg_of, type_of, dn_of}
use newmacemu.Instruction.Order.{IsOrdered, test_cc-cmp}
use newmacemu.Instruction.Binary.{add_to_ea}
use newmacemu.Instruction.Rewritten.{add_to_ea-IsSum}
use newmacemu.Instruction.Flow.{link_w, unlk}
use newmacemu.Instruction.Linked.{unlk-link_w}
use newmacemu.Instruction.Conditions.{trap_operand}
use newmacemu.Instruction.Movem.{store_base, load_base}
use newmacemu.Instruction.Saved.{saved-IsBytes}
use newmacemu.Instruction.Reloaded.{IsAt, saved_ram, load_base-store_base}
use newmacemu.Decoder.{Instruction, oct}
use newmacemu.Decoder.Table.{run_table}
use newmacemu.Decoder.Lines.{run_table-lines, run_table-trap_operand}
use newmacemu.Execute.{Host, execute}
use newmacemu.Execute.Refused.{execute-refused}
use newmacemu.Run.{prepared, run_round}
use newmacemu.Run.Trapped.{IsTrapped, is_trap, run_round-trapped}
use newmacemu.Examples.Board.{
  no_devices, flat_mmu, no_paging-IsOff, at_start, quiet, board, board-IsBytes,
}

-- A host that does nothing.
abbrev no_host : Host (Unit {0})
no_host = record {
  bus_reset = pure tt;
  stop = pure tt;
  wait = pure tt;
  rom_stop = λ pc. false;
  rom_function = λ pc. none;
  fpu_op = λ i op. pure tt;
}

test_cc-cmp_example : IsOrdered word 5 0xfff0 (cmp word quiet 5 0xfff0)
test_cc-cmp_example = test_cc-cmp word quiet 5 0xfff0 (omega arith) (omega arith)

run_table-lines_example :
    (0x6012 / 2 ^ 12 ≡ 6 → run_table 0x6012 ≡ some Instruction.bxx)
    × (0x6012 / 2 ^ 12 ≡ 10 → run_table 0x6012 ≡ some Instruction.aline_ex)
    × (0x6012 / 2 ^ 12 ≡ 7 → bit 0x6012 8 ≡ false → run_table 0x6012 ≡ some Instruction.moveq)
run_table-lines_example = run_table-lines 0x6012

has_trapcc : run_table (oct 50372) ≡ some Instruction.trapcc
unfolding run_table
has_trapcc = refl

run_table-trap_operand_example : (k : ℕ) × (trap_operand (reg_of (oct 50372)) ≡ some k)
run_table-trap_operand_example = run_table-trap_operand (oct 50372) has_trapcc

abbrev user : Machine (Unit {0})
user = record board { s = false; control = record at_start { usp = 0x80; isp = 0x40 } }

execute-refused_example :
    execute no_devices flat_mmu no_host 0 Instruction.move_to_sr 0x46c0 user ≡ raised priv_err user
execute-refused_example =
    execute-refused no_devices flat_mmu no_host 0 Instruction.move_to_sr 0x46c0 user refl refl

add_to_ea-IsSum_example :
    (after : Machine (Unit {0})) × (add_to_ea no_devices flat_mmu long 0xd198 board ≡ ok tt after)
    × (after.a (reg_of 0xd198) ≡ offset (board.a (reg_of 0xd198)) 4)
    × (after.bus_lock ≡ false)
    × IsSum long
        (read_be long board.ram (board.a (reg_of 0xd198)))
        (board.d (dn_of 0xd198) % 2 ^ 32)
        (record { ccr = after.ccr; value = read_be long after.ram (board.a (reg_of 0xd198)) })
unfolding type_of reg_of
add_to_ea-IsSum_example =
    add_to_ea-IsSum no_devices flat_mmu 0xd198 board refl
      (omega arith, (omega arith, no_paging-IsOff)) board-IsBytes

-- Two bytes of a program at 0x10.
abbrev program : ℕ → ℕ → ℕ → ℕ
program high low = update (update board.ram 0x10 high) 0x11 low

program-IsBytes : (high low : ℕ) → high < 2 ^ 8 → low < 2 ^ 8 → IsBytes (program high low)
program-IsBytes high low h k i = ground (arith, board-IsBytes i)

-- TRAP #3 at 0x10, with A7 at 0x80 and another stack pointer stored in USP.
abbrev at_trap : Machine (Unit {0})
at_trap = record user {
  pc = 0x10;
  ram = program 0x4e 0x43;
  control = record (user.control) { usp = 0x60 };
}

abbrev past_trap : Machine (Unit {0})
past_trap = record (prepared 0x10 at_trap) { pc = 0x12 }

at_trap-fetch : fetch no_devices flat_mmu (prepared 0x10 at_trap) ≡ ok 0x4e43 past_trap
unfolding fetch fetch_w read_w_impl bus_read read_be
at_trap-fetch = refl

at_trap-IsTrapped : IsTrapped no_devices flat_mmu no_host 0 0x4e43 at_trap past_trap (trap 3)
unfolding run_table type_of reg_of
at_trap-IsTrapped = record {
  awake = refl;
  no_stop = refl;
  no_function = refl;
  uninterrupted = refl;
  opcode = at_trap-fetch;
  traps = is_trap refl (omega arith);
}

table-InRam : past_trap.control.vbr + number (trap 3) * 4 + 4 ≤ past_trap.ram_size
unfolding number
table-InRam = omega arith

past_trap-IsReady : IsReady 0x38 (trap 3) past_trap
past_trap-IsReady = record {
  top = refl;
  room = omega arith;
  table = (table-InRam, (omega arith, no_paging-IsOff));
  is_bytes = program-IsBytes 0x4e 0x43 (omega arith) (omega arith);
  mask = omega arith;
  tracing = omega arith;
}

past_trap-entry : bit (entry 0x38 (trap 3) past_trap) 0 ≡ false
unfolding read_be write_be number
past_trap-entry = refl

run_round-trapped_example :
    (after : Machine (Unit {0})) × (run_round no_devices flat_mmu no_host 0 at_trap
      ≡ ok (some tt) after)
    × (after.pc ≡ entry 0x38 (trap 3) past_trap)
    × (after.s ≡ true)
    × (after.bus_lock ≡ false)
    × (after.a 7 ≡ 0x38)
    × ((back : Machine (Unit {0})) × (do_rte no_devices flat_mmu 1 after ≡ ok (some tt) back)
        × (get_sr back ≡ get_sr past_trap)
        × (back.a 7 ≡ stack_in_use past_trap)
        × (back.pc ≡ return_pc (trap 3) past_trap % 2 ^ 16))
run_round-trapped_example =
    run_round-trapped no_devices flat_mmu no_host 0 0x4e43 0x38 at_trap past_trap (trap 3)
      at_trap-IsTrapped past_trap-IsReady past_trap-entry refl

-- LINK.W A6,#0 with the displacement at 0x10.
abbrev at_link : Machine (Unit {0})
at_link = record board { pc = 0x10 }

abbrev past_link : Machine (Unit {0})
past_link = record at_link { pc = 0x12 }

at_link-fetch : fetch no_devices flat_mmu at_link ≡ ok 0 past_link
unfolding fetch fetch_w read_w_impl bus_read read_be
at_link-fetch = refl

abbrev at_unlk : Machine (Unit {0})
at_unlk = record past_link { ram = pushed past_link.ram 0x7c 0x80; a = update past_link.a 6 0x7c }

unlk-link_w_example :
    ((after : Machine (Unit {0})) × (link_w no_devices flat_mmu 0x4e56 at_link ≡ ok tt after)
      × (after.a (reg_of 0x4e56) ≡ 0x7c)
      × (after.a 7 ≡ offset 0x7c 0)
      × (after.ram ≡ pushed past_link.ram 0x7c (past_link.a (reg_of 0x4e56))))
    × ((back : Machine (Unit {0})) × (unlk no_devices flat_mmu 0x4e5e at_unlk ≡ ok tt back)
        × (back.a 7 ≡ past_link.a 7)
        × (back.a (reg_of 0x4e56) ≡ past_link.a (reg_of 0x4e56) % 2 ^ 16))
unfolding reg_of
unlk-link_w_example =
    unlk-link_w no_devices flat_mmu 0x4e56 0x4e5e 0x7c 0 at_link past_link at_unlk
      (λ same. absurd (ground arith)) refl at_link-fetch
      (refl, (omega arith, (omega arith, no_paging-IsOff)), board-IsBytes) (omega arith) refl refl
      refl refl

-- MOVEM.L D0/D2/A0/A1 to (A0), and back into other registers.
abbrev at_save : Machine (Unit {0})
at_save = record board { pc = 0x10; ram = program 0x03 0x05 }

abbrev past_save : Machine (Unit {0})
past_save = record at_save { pc = 0x12 }

abbrev at_load : Machine (Unit {0})
at_load = record at_save { d = λ n. 0; ram = saved_ram no_devices flat_mmu 0x48d0 0x0305 past_save }

abbrev past_load : Machine (Unit {0})
past_load = record at_load { pc = 0x12 }

at_save-fetch : fetch no_devices flat_mmu at_save ≡ ok 0x0305 past_save
unfolding fetch fetch_w read_w_impl bus_read read_be
at_save-fetch = refl

at_load-fetch : fetch no_devices flat_mmu at_load ≡ ok 0x0305 past_load
unfolding fetch fetch_w read_w_impl bus_read read_be write_be saved_ram reg_of
at_load-fetch = refl

saving : IsAt no_devices flat_mmu 0x48d0 0x0305 at_save past_save
unfolding type_of
saving = record {
  mask = at_save-fetch;
  indirect = refl;
  fresh = refl;
  space = (
    omega arith,
    (omega arith, no_paging-IsOff),
    program-IsBytes 3 5 (omega arith) (omega arith),
  );
}

loading : IsAt no_devices flat_mmu 0x4cd0 0x0305 at_load past_load
unfolding type_of saved_ram
loading = record {
  mask = at_load-fetch;
  indirect = refl;
  fresh = refl;
  space = (
    omega arith,
    (omega arith, no_paging-IsOff),
    saved-IsBytes no_devices flat_mmu 0x0305 16 0 0x80 (λ j. get_r j past_save) past_save.ram
        (program-IsBytes 3 5 (omega arith) (omega arith)),
  );
}

load_base-store_base_example :
    (store_base no_devices flat_mmu long 0x48d0 at_save
      ≡ ok tt (record past_save {
        ea = 0x80;
        movem_run = false;
        ram = saved_ram no_devices flat_mmu 0x48d0 0x0305 past_save;
      }))
    × ((back : Machine (Unit {0})) × (load_base no_devices flat_mmu long 0x4cd0 at_load
          ≡ ok tt back)
        × ((j : ℕ)
            → j < 16
            → get_r j back ≡ (if bit 0x0305 j then get_r j past_save else get_r j past_load)))
load_base-store_base_example =
    load_base-store_base no_devices flat_mmu 0x48d0 0x4cd0 0x0305 at_save past_save at_load
      past_load saving (λ j. ground arith) loading refl refl
