-- ===== src/EffectiveAddress/Stacked.antt =====
-- A long word pushed by -(An) and popped by (An)+.
use newmacemu.Common.{ℕ, ◌+◌, ◌^◌, ◌<◌, ◌≡◌, refl, arith, true, false, ◌==◌, long}
use newmacemu.Machine.{Machine, ok, update}
use newmacemu.Bus.{Devices, write_be}
use newmacemu.Bus.Endian.{read_be-write_be}
use newmacemu.Memory.{Mmu, offset}
use newmacemu.Memory.Alignment.{InRam, IsBytes, read_l-ram, write_l-ram, write_be-IsBytes}
use newmacemu.Stack.{below}
use newmacemu.EffectiveAddress.{ea_getaddr, ea_read, ea_write, step}

pub long_step : (reg : ℕ) → step reg 4 ≡ 4
long_step reg = ground arith

module _ {Io : Type 0} (devices : Devices Io) (mmu : Mmu Io) where
  -- With room in RAM below an address register, no translation enabled and the bus not locked, a 32-bit
  -- value written to -(An) and then read from (An)+: both end normally, the value comes back, and the
  -- register is as it was.
  pub ea_read-ea_write :
      (reg base v : ℕ) (m : Machine Io)
      → m.a reg ≡ base + 4
      → InRam long base m
      → IsBytes m.ram
      → v < 2 ^ 32
      → m.bus_lock ≡ false
      → (after : Machine Io) × (ea_write devices mmu long 4 reg v m ≡ ok tt after)
        × (after.a reg ≡ base)
        × ((back : Machine Io) × (ea_read devices mmu long 3 reg false after ≡ ok v back)
            × (back.a reg ≡ m.a reg)
            × (back.ea ≡ base))
  unfolding ea_read ea_write ea_getaddr
  ea_read-ea_write reg base v m at (inside, plain) bytes small unlocked =
      let low : below (base + 4) 4 ≡ base = omega arith in
      let high : offset base 4 ≡ base + 4 = omega arith in
      let lowered : Machine Io = record m {
        a = update m.a reg base;
        ea = base;
        bus_lock = false;
      } in
      let p = write_be long m.ram base v in
      let after : Machine Io = record lowered { ram = p } in
      let same : (reg == reg) ≡ true = ground arith in
      let raised_ : Machine Io = record after { a = update after.a reg (base + 4) } in
      (
        after,
        rw
            (
              unlocked,
              at,
              long_step reg,
              low,
              write_l-ram devices mmu base v lowered (inside, plain),
            )
            refl,
        rw same refl,
        (
          raised_,
          rw
              (
                same,
                long_step reg,
                high,
                read_l-ram devices mmu base raised_ (inside, plain)
                    (write_be-IsBytes devices mmu long m.ram base v bytes),
                read_be-write_be long m.ram base v small,
              )
              refl,
          rw (same, at) refl,
          refl,
        ),
      )
