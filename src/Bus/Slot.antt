-- ===== src/Bus/Slot.antt =====
-- The slots of the expansion bus: the slot number keeps three bits of the address, and the video memory
-- is compared with 9.
use newmacemu.Common.{ℕ, ◌*◌, ◌/◌, ◌^◌, ◌<◌, ◌≤◌, ◌≡◌, refl, arith, false, bit_and, ◌==◌, Size}
use newmacemu.Common.Mask.{bit_and-mod}
use newmacemu.Machine.{Machine, ok}
use newmacemu.Bus.{Devices, bus_read, bus_write}

slot-small : (x : ℕ) → (bit_and x 7 == 9) ≡ false
slot-small x = rw (bit_and-mod 3 x) (ground arith)

-- Every read of an address from 0xf0000000 on gives 0, and every write there changes nothing, at any size
-- and whatever the video memory holds.
pub bus_read-slot :
    {Io : Type 0} (devices : Devices Io) (w : Size) (addr v : ℕ) (m : Machine Io)
    → 0xf * 2 ^ 28 ≤ addr
    → addr < 2 ^ 32
    → (bus_read devices w addr m ≡ ok 0 m) × (bus_write devices w addr v m ≡ ok tt m)
unfolding bus_read bus_write
bus_read-slot devices w addr v m low high =
    let area : addr / 2 ^ 28 ≡ 0xf = omega arith in
    let other : (bit_and (addr / 2 ^ 24) 7 == 9) ≡ false = slot-small (addr / 2 ^ 24) in
    (rw (area, other) refl, rw (area, other) refl)
