-- ===== src/Mcu.antt =====
-- src/chip/mcu.cc with include/mb/mcu.hpp: the memory controller of the Quadras.
use newmacemu.Common.{
  ℕ, ◌-◌, ◌*◌, ◌/◌, ◌^◌, bit_or, bit_and, ltb, ◌==◌, if◌then◌else◌, Option, none, some,
}
use newmacemu.Machine.{update}

pub record McuCtl : Type 0 where
  pub value : ℕ
  pub ctls : ℕ → ℕ

-- MCU_ctl::read; `none` is a thrown BusError.
unfoldable pub mcu_read : ℕ → McuCtl → Option ℕ
mcu_read addr m =
    if ltb addr 0x1000
    then some (m.ctls (bit_and (addr / 2 ^ 2) 63))
    else if ltb addr 0x1400
    then (if bit_and addr 0xff == 0xc0 then some 4 else none)
    else if ltb addr 0x1800
    then some 0
    else none

unfoldable pub mcu_write : ℕ → ℕ → McuCtl → McuCtl
mcu_write addr v m =
    let b : ℕ = addr / 2 ^ 2 in
    if ltb addr 128
    then record m { value = bit_or (bit_and m.value (2 ^ 32 - 1 - 2 ^ b)) (bit_and v 1 * 2 ^ b) }
    else record m { ctls = update m.ctls (bit_and b 63) v }
