-- ===== src/Lib.antt =====
-- newmacemu: a Macintosh with a 68040, in C++.
--
-- The interpreter's instructions change the global `cpu` and reach memory and devices through the
-- bus. This library models, file by file:
--
-- Ccr: the condition codes of `cpu` (include/68040.hpp), TEST_B to TEST_L (include/inline.hpp),
--   GetCCR and SetCCR (src/cpu/op.cc). An operation on the flags takes the old `Ccr` and returns
--   an `Alu`, the new flags with the value.
-- Arithmetic: ADD_, SUB_, CMP_, ADDX_, SUBX_, NEG_ and NEGX_ (src/cpu/arithmetic.cc). `add`,
--   `sub` and so on take the size, one definition for the functions of the three suffixes.
-- Logic, Shift, Rotate: AND_ to BSET_, the shifts and the rotations (src/cpu/bits.cc).
-- Bcd: do_abcd, do_sbcd, do_nbcd, do_pack and do_unpk (src/cpu/bcd.cc).
-- Rtc: the clock chip (src/chip/rtc.cc), from single bits on the line up to commands.
-- Machine: the other fields of `cpu`, the memory arrays, and computations that change them and end
--   normally, with a thrown PTestError, or with a raised exception.
-- Bus: the physical addresses (src/bus.cc). The devices behind `io` are the interface `Devices`.
-- Memory: logical addresses (src/memory.cc) and ACCESS_FAULT (src/cpu/exception.cc), over the MMU's
--   ptest_and_check as the interface `Mmu`. Memory.Access has ReadB to WriteSL.
-- Fetch, EffectiveAddress: FETCH (include/memory.hpp), and the operands of an instruction
--   (src/cpu/m68k_ea.cc); ea_read and ea_write take the size.
-- Paging: the MMU itself (src/cpu/68040_mmu.cc, include/mmu.hpp): transparent translation in Paging,
--   the table walk in Paging.Search, the flushes in Paging.Flush, MOVEC and PTEST in
--   Paging.Registers, the instructions in Paging.Handlers. Paging.Flat makes it an `Mmu`.
-- Status: GetSR, SetSR, SaveSP and LoadSP (src/cpu/op.cc), and PRIV_CHECK (include/68040.hpp).
-- Exception: handle_exception, do_rte in Exception.Return and RESET in Exception.Reset
--   (src/cpu/exception.cc). double_fault, which ends the emulator, is the outcome `halted`.
-- Via: the interface adapters (src/chip/via.cc, include/chip/via.hpp). Via.Registers has class VIA over
--   its virtual functions as the interface `Port`; Via.Ports and Via.Adapters have VIA1 and VIA2,
--   which implement it, with the clock chip of Rtc behind VIA1; Via.Rbv has RBV; Via.Serial has
--   rtc_send and rtc_recv (src/librom/libvia.cc).
-- Stack, Branch: PUSH32, POP32, JUMP (include/inline.hpp), and src/cpu/branch.cc.
-- Product, Division, Compare: the multiplications, the divisions, and CAS_, CAS2_, CHK_ and CMP2_
--   (src/cpu/arithmetic.cc). CAS_ and CMP2_ use Memory.Access.
-- Bitfield: src/cpu/bitfield.cc on registers; Bitfield.Memory and Bitfield.Insert on memory.
-- Instruction: the handlers of namespace OP (src/cpu/op.cc), the suffixes _b, _w, _l, _d, _m, _i, _r
--   of the source as arguments: Immediate, Bits, Transfer, Unary, Products, Flow, Conditions (with
--   testCC), Binary, Paired, Shifts and Fields; Movem has src/cpu/op_move.cc. Order, Rewritten,
--   Linked, Saved and Reloaded hold proofs.
-- Decoder: init_run_table (src/cpu/op.cc), init_run_table_mmu (src/cpu/68040_mmu.cc) and
--   M68040FpuFull::init_table (src/cpu/68040_fpu.cc), as rules in the order of the assignments;
--   Table puts them together, General to Shifting have those of op.cc.
-- Execute, Run: the call of a handler, and src/cpu/run.cc: op_prologue, run_op, and run_cpu by rounds,
--   which hands a raised exception to handle_exception. The rest of the program is the record
--   `Host` of Execute.
-- Boards: the address maps of the seven boards (src/io.cc, include/io.hpp), a table of cases for each
--   switch, the chips as the interface `Chips`; board_devices makes a board the `Devices` of Bus.
-- Scc: the serial controller (src/chip/scc.cc, include/chip/scc.hpp): the state and doIrq, and in
--   Scc.Channels the other methods. The names of the methods have the
--   prefixes scc_ for class SCC and ch_ for SccCh, and a channel is named by isChB.
-- Iop, Mcu: src/chip/iop.cc and src/chip/mcu.cc.
-- Common: numbers as machine words, bit operations bit by bit, tests and lists.
-- Examples: the theorems at concrete inputs.
--
-- Numbers are natural numbers, and every conversion to a C++ type is written out. A signed operand is
-- its bit pattern; `signed` is the integer that the pattern stands for. `~` and `>>` on an `int` are
-- taken on 32-bit patterns. Where C++ leaves a shift undefined (a negative count, or one of the whole
-- width), the rotations return `none`. Fuel bounds the loops of
-- cinvl_i and cinvp_i, which get a round for each two bytes of the block and one more, and the
-- recursion of do_rte, once for each throwaway frame on the stack; run_cpu, which the source never
-- leaves, is given for any number of rounds; all other loops are over lists, bits, or a fixed number
-- of rounds. Where the source says that a branch is unreachable, or C++ leaves a result undefined, a
-- handler ends in `halted`, and so does an access to an operand that runs past the end of RAM. The ends of
-- the ROM and of the video memory are not modelled.
--
-- Not modelled: the FPU (over MPFR), the JIT compiler (over LLVM), the ROM support library, and the
-- host's windows, sound, network and debugger. ADB and ASC
-- are outside this library so far. Of the SDL library's timers only the start is kept.
pub mod Common
pub mod Ccr
pub mod Arithmetic
pub mod Logic
pub mod Shift
pub mod Rotate
pub mod Bcd
pub mod Scc
pub mod Iop
pub mod Mcu
pub mod Rtc
pub mod Instruction
pub mod Decoder
pub mod Execute
pub mod Run
pub mod Machine
pub mod Boards
pub mod Bus
pub mod Memory
pub mod Fetch
pub mod EffectiveAddress
pub mod Paging
pub mod Status
pub mod Stack
pub mod Exception
pub mod Branch
pub mod Product
pub mod Division
pub mod Compare
pub mod Bitfield
pub mod Via
pub mod Examples
