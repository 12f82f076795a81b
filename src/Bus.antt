-- ===== src/Bus.antt =====
-- src/bus.cc with readBE16 to writeBE32 of include/memory.hpp: the physical address space. An operand
-- that starts in RAM and runs past its end, which C++ leaves undefined, ends the run. The ends of the ROM
-- and of the video memory are not modelled: past them there are further bytes.
pub mod Endian
pub mod Slot
use newmacemu.Common.{
  ℕ, Bool, ◌+◌, ◌-◌, ◌*◌, ◌/◌, ◌%◌, ◌^◌, bit_and, ltb, leb, ◌==◌, if◌then◌else◌, Option, none, some,
  Size, byte, word, long,
}
use newmacemu.Machine.{
  Machine, Outcome, ok, ptest_error, raised, halted, M, bind, pure, gets, modify, update,
}

-- What doBus16 points at.
pub data Pointer : Type 0 where
  in_ram in_rom : ℕ → Pointer

unfoldable pub do_bus16 : {Io : Type 0} → ℕ → M Io Pointer
do_bus16 addr m =
    let area : ℕ = addr / 2 ^ 28 in
    if ltb area 4
    then (if leb m.ram_size addr then ptest_error 0 m else ok (in_ram addr) m)
    else if area == 4
    then ok (in_rom (bit_and addr m.rom_mask)) m
    else ptest_error 0 m

-- `memcpy(to, maddr, 16)` and `memcpy(maddr, from, 16)`; a block is its bytes by offset.
abbrev pub copy_from : {Io : Type 0} → Pointer → M Io (ℕ → ℕ)
copy_from (in_ram i) m = if leb (i + 16) m.ram_size then ok (λ k. m.ram (i + k)) m else halted m
copy_from (in_rom i) m = ok (λ k. m.rom (i + k)) m

abbrev pub overwrite : (ℕ → ℕ) → ℕ → (ℕ → ℕ) → ℕ → ℕ
overwrite p i block j = if leb i j then (if ltb j (i + 16) then block (j - i) else p j) else p j

abbrev pub copy_to : {Io : Type 0} → Pointer → (ℕ → ℕ) → M Io (Unit {0})
copy_to (in_ram i) block m =
    if leb (i + 16) m.ram_size then ok tt (record m { ram = overwrite m.ram i block }) else halted m
copy_to (in_rom i) block m = ok tt (record m { rom = overwrite m.rom i block })

-- The devices behind the pointer `io`: a read gives its value, or `none` for a BusError, and a write
-- gives false for a BusError, each with the devices' new state.
pub record Devices (Io : Type 0) : Type 0 where
  pub io_read : Size → ℕ → Io → Option ℕ × Io
  pub io_write : Size → ℕ → ℕ → Io → Bool × Io

-- `memDo` of the const traits: `*p`, readBE16 and readBE32.
unfoldable pub read_be : Size → (ℕ → ℕ) → ℕ → ℕ
read_be byte p i = p i
read_be word p i = p i * 2 ^ 8 + p (i + 1)
read_be long p i = p i * 2 ^ 24 + p (i + 1) * 2 ^ 16 + p (i + 2) * 2 ^ 8 + p (i + 3)

-- `memDo` of the other traits: `*p = v`, writeBE16 and writeBE32.
unfoldable pub write_be : Size → (ℕ → ℕ) → ℕ → ℕ → ℕ → ℕ
write_be byte p i v = update p i (v % 2 ^ 8)
write_be word p i v = update (update p i (v / 2 ^ 8 % 2 ^ 8)) (i + 1) (v % 2 ^ 8)
write_be long p i v =
    update
      (update (update (update p i (v / 2 ^ 24 % 2 ^ 8)) (i + 1) (v / 2 ^ 16 % 2 ^ 8)) (i + 2)
        (v / 2 ^ 8 % 2 ^ 8))
      (i + 3) (v % 2 ^ 8)

-- The number of bytes of an operand.
abbrev pub width : Size → ℕ
width byte = 1
width word = 2
width long = 4

-- RAM + addr: a BusError from RAMSize on, and undefined where the operand runs past it.
abbrev pub with_ram : {Io A : Type 0} → Size → ℕ → M Io A → M Io A
with_ram w addr access m =
    if leb m.ram_size addr
    then ptest_error 0 m
    else if leb (addr + width w) m.ram_size
    then access m
    else halted m

module _ {Io : Type 0} (devices : Devices Io) where
  -- `bus_trait<const T>::ioDo`.
  abbrev io_do_read : Size → ℕ → M Io ℕ
  io_do_read w addr m =
      let r = devices.io_read w (bit_and addr 0x0fffffff) m.io in
      elim (r.0) [
        | none ↦ ptest_error 0 (record m { io = r.1 })
        | some v ↦ ok v (record m { io = r.1 })
      ]

  abbrev io_do_write : Size → ℕ → ℕ → M Io (Unit {0})
  io_do_write w addr v m =
      let r = devices.io_write w (bit_and addr 0x0fffffff) v m.io in
      if r.0 then ok tt (record m { io = r.1 }) else ptest_error 0 (record m { io = r.1 })

  -- `nuBusDo`: the video memory is in slot 9, from offset 0x1000 on.
  abbrev nu_bus_read : Size → ℕ → ℕ → M Io ℕ
  nu_bus_read w base addr m =
      ok
        (if base == 9 then (if leb 0x1000 addr then read_be w m.vram (addr - 0x1000) else 0) else 0)
        m

  abbrev nu_bus_write : Size → ℕ → ℕ → ℕ → M Io (Unit {0})
  nu_bus_write w base addr v m = ok tt (
      if base == 9
      then (if leb 0x1000 addr then record m { vram = write_be w m.vram (addr - 0x1000) v } else m)
      else m)

  -- BusReadB, BusReadW, BusReadL: doBus at the const types.
  unfoldable pub bus_read : Size → ℕ → M Io ℕ
  unfolding read_be
  bus_read w addr m =
      let area : ℕ = addr / 2 ^ 28 in
      if ltb area 4
      then with_ram w addr (λ m1. ok (read_be w m1.ram addr) m1) m
      else if area == 4
      then ok (read_be w m.rom (bit_and addr m.rom_mask)) m
      else if area == 5
      then io_do_read w addr m
      else if area == 0xf
      then nu_bus_read w (bit_and (addr / 2 ^ 24) 7) (bit_and addr 0xffffff) m
      else ptest_error 0 m

  -- BusWriteB, BusWriteW, BusWriteL: doBus at the other types.
  unfoldable pub bus_write : Size → ℕ → ℕ → M Io (Unit {0})
  unfolding write_be
  bus_write w addr v m =
      let area : ℕ = addr / 2 ^ 28 in
      if ltb area 4
      then with_ram w addr (λ m1. ok tt (record m1 { ram = write_be w m1.ram addr v })) m
      else if area == 4
      then ok tt (record m { rom = write_be w m.rom (bit_and addr m.rom_mask) v })
      else if area == 5
      then io_do_write w addr v m
      else if area == 0xf
      then nu_bus_write w (bit_and (addr / 2 ^ 24) 7) (bit_and addr 0xffffff) v m
      else ptest_error 0 m
