-- ===== src/Boards.antt =====
-- src/io.cc with include/io.hpp: the addresses behind the pointer `io` on the seven boards. A chip is
-- reached by the number of its register; the chips themselves are the interface `Chips`.
pub mod Expansion
pub mod Registers
use newmacemu.Common.{
  ℕ, ◌+◌, ◌*◌, ◌/◌, ◌%◌, ◌^◌, Bool, true, false, not, bit_or, bit_and, bit, ltb, leb, ◌==◌,
  if◌then◌else◌, Option, none, some, List, [], ◌∷◌, Size, byte, word, long,
}
use newmacemu.Machine.{update}
use newmacemu.Bus.{Devices}

pub data Chip : Type 0 where
  via1 via2 scc scsi_handshake scsi scsi_pdma scsi_dma asc swim vdac rbv iop_scc iop_swim : Chip
  oss exp0 exp1 mcu jaws : Chip

-- The classes GLUE, MDU, OSS, V8, MCU_Q900, MCU_Q700 and JAWS.
pub data Model : Type 0 where
  glue mdu oss_board v8 mcu_q900 mcu_q700 jaws_board : Model

-- A case of the `switch` on the address: the chip, and the register that the address selects.
pub record Case : Type 0 where
  pub number : ℕ
  pub chip : Chip
  pub register : ℕ → ℕ

abbrev pub to : ℕ → Chip → (ℕ → ℕ) → Case
to n c f = record { number = n; chip = c; register = f }

-- `addr >> shift & mask`.
abbrev pub wires : ℕ → ℕ → ℕ → ℕ
wires shift mask addr = bit_and (addr / 2 ^ shift) mask

unfoldable pub switch : ℕ → ℕ → List Case → Option (Chip × ℕ)
switch n addr [] = none
switch n addr (c ∷ cs) = if n == c.number then some (c.chip, c.register addr) else switch n addr cs

-- The cases that the boards with a SCSI chip share.
abbrev pub scsi_cases : List Case
scsi_cases =
    to 3 scsi_handshake (wires 4 3)
    ∷ to 8 scsi (wires 4 3)
    ∷ to 9 scsi_pdma (wires 4 3)
    ∷ to 10 asc (wires 0 0xfff)
    ∷ to 11 swim (wires 9 0xf)
    ∷ []

abbrev pub glue_cases : List Case
glue_cases = to 0 via1 (wires 9 0xf) ∷ to 1 via2 (wires 9 0xf) ∷ to 2 scc (wires 1 3) ∷ scsi_cases

abbrev pub mdu_cases : List Case
mdu_cases =
    to 0 via1 (wires 9 0xf)
    ∷ to 2 scc (wires 1 3)
    ∷ to 18 vdac (wires 2 7)
    ∷ to 19 rbv (wires 0 0xff)
    ∷ scsi_cases

abbrev pub oss_cases : List Case
oss_cases =
    to 0 via1 (wires 9 0xf)
    ∷ to 2 iop_scc (wires 1 0x1f)
    ∷ to 8 asc (wires 0 0xfff)
    ∷ to 9 iop_swim (wires 1 0x1f)
    ∷ to 13 oss (λ addr. bit_or (bit_and addr 0xf) (bit_and addr 0x1e00 / 2 ^ 5))
    ∷ to 14 exp0 (wires 0 0x1fff)
    ∷ to 15 exp1 (wires 0 0x1fff)
    ∷ []

abbrev pub q900_cases : List Case
q900_cases =
    to 0 via1 (wires 9 0xf)
    ∷ to 1 via2 (wires 9 0xf)
    ∷ to 6 iop_scc (wires 1 0x1f)
    ∷ to 10 asc (wires 0 0xfff)
    ∷ to 15 iop_swim (wires 1 0x1f)
    ∷ []

abbrev pub q700_cases : List Case
q700_cases =
    to 0 via1 (wires 9 0xf)
    ∷ to 1 via2 (wires 9 0xf)
    ∷ to 6 scc (wires 1 0x1f)
    ∷ to 10 asc (wires 0 0xfff)
    ∷ to 15 swim (wires 1 0x1f)
    ∷ []

-- JAWS's `default`.
abbrev pub jaws_place : Option (Chip × ℕ) → ℕ → Option (Chip × ℕ)
jaws_place none addr = if leb 0x80000 (bit_and addr 0xfffff) then some (jaws, addr) else none
jaws_place (some p) addr = some p

-- What a byte's address selects behind the test of the expansion slot; `none` is a BusError.
unfoldable pub write_place : Model → ℕ → Option (Chip × ℕ)
unfolding switch
write_place glue addr = switch (wires 13 0xf addr) addr glue_cases
write_place mdu addr = switch (wires 13 0x1f addr) addr mdu_cases
write_place oss_board addr = switch (wires 13 0x1f addr) addr oss_cases
write_place v8 addr =
    if bit_and addr 0xf00000 == 0 then none else switch (wires 13 0x1f addr) addr mdu_cases
write_place mcu_q900 addr = switch (wires 13 0x1f addr) addr q900_cases
write_place mcu_q700 addr = switch (wires 13 0x1f addr) addr q700_cases
write_place jaws_board addr = jaws_place (switch (wires 13 0x7f addr) addr glue_cases) addr

-- A byte is read at the same places, and on the Quadra 700 also from the memory controller.
unfoldable pub read_place : Model → ℕ → Option (Chip × ℕ)
unfolding write_place switch
read_place mcu_q700 addr = switch (wires 13 0x1f addr) addr (to 7 mcu (wires 0 0x1fff) ∷ q700_cases)
read_place glue addr = write_place glue addr
read_place mdu addr = write_place mdu addr
read_place oss_board addr = write_place oss_board addr
read_place v8 addr = write_place v8 addr
read_place mcu_q900 addr = write_place mcu_q900 addr
read_place jaws_board addr = write_place jaws_board addr

-- The test of the expansion slot, and the place in the slot's memory.
unfoldable pub in_pds : Model → ℕ → Bool
in_pds v8 addr = ltb 0xf80000 addr
in_pds _ addr = bit addr 27

abbrev pub pds_place : Model → ℕ → ℕ
pds_place v8 addr = bit_and addr 0x7ffff
pds_place _ addr = bit_and addr 0x7ffffff

-- The long words that OSS, MCU_Q900 and MCU_Q700 hand to a chip as a whole.
unfoldable pub long_read_place : Model → ℕ → Option (Chip × ℕ)
unfolding switch
long_read_place oss_board addr =
    switch (wires 13 0x1f addr) addr (to 4 scsi_dma (wires 0 0x1fff) ∷ [])
long_read_place mcu_q900 addr = switch (wires 13 0x1f addr) addr (to 7 mcu (wires 0 0x1fff) ∷ [])
long_read_place mcu_q700 addr = switch (wires 13 0x1f addr) addr (to 7 mcu (wires 0 0x1fff) ∷ [])
long_read_place _ addr = none

unfoldable pub long_write_place : Model → ℕ → Option (Chip × ℕ)
unfolding switch
long_write_place oss_board addr = switch (wires 13 0x1f addr) addr (to 4 scsi_dma (wires 4 3) ∷ [])
long_write_place mcu_q900 addr = switch (wires 13 0x1f addr) addr (to 7 mcu (wires 0 0x1fff) ∷ [])
long_write_place mcu_q700 addr = switch (wires 13 0x1f addr) addr (to 7 mcu (wires 0 0x1fff) ∷ [])
long_write_place _ addr = none

-- The methods `read` and `write` of the chips, over their state: a read gives `none` for a BusError, and
-- a write gives false for one.
pub record Chips (S : Type 0) : Type 0 where
  pub chip_read : Chip → ℕ → S → Option ℕ × S
  pub chip_write : Chip → ℕ → ℕ → S → Bool × S

-- The pointer `pds`, `none` for a null pointer, and the chips.
pub record BoardIo (S : Type 0) : Type 0 where
  pub pds : Option (ℕ → ℕ)
  pub chips : S

-- Two accesses in a row, of which a BusError ends the first.
abbrev pub and_read : {S : Type 0} → Option ℕ × S → (ℕ → S → Option ℕ × S) → Option ℕ × S
and_read r next = elim (r.0) [ none ↦ (none, r.1) | some v ↦ next v (r.1) ]

abbrev pub and_write : {S : Type 0} → Bool × S → (S → Bool × S) → Bool × S
and_write r next = if r.0 then next (r.1) else r

module _ {S : Type 0} (methods : Chips S) (board : Model) where
  abbrev pub read_chip : Option (Chip × ℕ) → BoardIo S → Option ℕ × BoardIo S
  read_chip none s = (none, s)
  read_chip (some p) s =
      let r = methods.chip_read (p.0) (p.1) s.chips in (r.0, record s { chips = r.1 })

  abbrev pub write_chip : Option (Chip × ℕ) → ℕ → BoardIo S → Bool × BoardIo S
  write_chip none v s = (false, s)
  write_chip (some p) v s =
      let r = methods.chip_write (p.0) (p.1) v s.chips in (r.0, record s { chips = r.1 })

  -- readB; a chip's value becomes a uint8_t.
  unfoldable pub io_read_b : ℕ → BoardIo S → Option ℕ × BoardIo S
  unfolding read_place in_pds
  io_read_b addr s =
      if in_pds board addr
      then elim s.pds [ none ↦ (none, s) | some p ↦ (some (p (pds_place board addr)), s) ]
      else and_read (read_chip (read_place board addr) s) (λ v s1. (some (v % 2 ^ 8), s1))

  -- writeB: a byte for the expansion slot goes on to the `switch`.
  unfoldable pub io_write_b : ℕ → ℕ → BoardIo S → Bool × BoardIo S
  unfolding write_place in_pds
  io_write_b addr v s =
      let place = write_place board addr in
      if in_pds board addr
      then elim s.pds [
        | none ↦ (false, s)
        | some p ↦ write_chip place v (record s { pds = some (update p (pds_place board addr) v) })
      ]
      else write_chip place v s

  -- IO_BUS::readW, IO_BUS::writeW, IO_BUS::readL and IO_BUS::writeL.
  unfoldable pub io_read_w : ℕ → BoardIo S → Option ℕ × BoardIo S
  unfolding io_read_b
  io_read_w addr s = and_read (io_read_b addr s) (λ v1 s1.
      and_read (io_read_b ((addr + 1) % 2 ^ 32) s1) (λ v2 s2. (some (bit_or (v1 * 2 ^ 8) v2), s2)))

  unfoldable pub io_write_w : ℕ → ℕ → BoardIo S → Bool × BoardIo S
  unfolding io_write_b
  io_write_w addr v s =
      and_write (io_write_b addr (v / 2 ^ 8 % 2 ^ 8) s)
        (io_write_b ((addr + 1) % 2 ^ 32) (v % 2 ^ 8))

  unfoldable pub each_read : ℕ → BoardIo S → Option ℕ × BoardIo S
  unfolding io_read_w
  each_read addr s = and_read (io_read_b addr s) (λ v1 s1.
      and_read (io_read_b ((addr + 1) % 2 ^ 32) s1) (λ v2 s2.
        and_read (io_read_b ((addr + 2) % 2 ^ 32) s2) (λ v3 s3.
          and_read (io_read_b ((addr + 3) % 2 ^ 32) s3) (λ v4 s4.
            (some (bit_or (bit_or (bit_or (v1 * 2 ^ 24) (v2 * 2 ^ 16)) (v3 * 2 ^ 8)) v4), s4)))))

  unfoldable pub each_write : ℕ → ℕ → BoardIo S → Bool × BoardIo S
  unfolding io_write_b
  each_write addr v s =
      let second = v / 2 ^ 16 % 2 ^ 8 in
      and_write (io_write_b addr (v / 2 ^ 24 % 2 ^ 8) s) (λ s1.
        and_write (io_write_b ((addr + 1) % 2 ^ 32) second s1) (λ s2.
          and_write (io_write_b ((addr + 2) % 2 ^ 32) second s2)
            (io_write_b ((addr + 3) % 2 ^ 32) second)))

  -- readL and writeL of the boards.
  unfoldable pub io_read_l : ℕ → BoardIo S → Option ℕ × BoardIo S
  unfolding each_read long_read_place
  io_read_l addr s =
      let place = long_read_place board addr in
      elim place [ none ↦ each_read addr s | some p ↦ read_chip (some p) s ]

  unfoldable pub io_write_l : ℕ → ℕ → BoardIo S → Bool × BoardIo S
  unfolding each_write long_write_place
  io_write_l addr v s =
      let place = long_write_place board addr in
      elim place [ none ↦ each_write addr v s | some p ↦ write_chip (some p) v s ]

  -- What the bus asks of the devices.
  abbrev pub board_devices : Devices (BoardIo S)
  board_devices = record {
    io_read = λ w addr s. elim w [
      | byte ↦ io_read_b addr s
      | word ↦ io_read_w addr s
      | long ↦ io_read_l addr s
    ];
    io_write = λ w addr v s. elim w [
      | byte ↦ io_write_b addr v s
      | word ↦ io_write_w addr v s
      | long ↦ io_write_l addr v s
    ];
  }
