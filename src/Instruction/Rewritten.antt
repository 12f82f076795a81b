-- ===== src/Instruction/Rewritten.antt =====
-- src/cpu/op.cc with src/cpu/m68k_ea.cc: an operand (An)+ that is read, changed and written back.
use newmacemu.Common.{ℕ, ◌+◌, ◌%◌, ◌^◌, ◌<◌, ◌≡◌, refl, arith, ◌∙◌, true, false, ◌==◌, long}
use newmacemu.Ccr.{Alu}
use newmacemu.Arithmetic.{add}
use newmacemu.Arithmetic.Sum.{IsSum, add-IsSum}
use newmacemu.Machine.{Machine, ok, update}
use newmacemu.Bus.{Devices, read_be, write_be}
use newmacemu.Bus.Endian.{read_be-write_be}
use newmacemu.Memory.{Mmu, offset}
use newmacemu.Memory.Alignment.{InRam, IsBytes, read_l-ram, write_l-ram}
use newmacemu.EffectiveAddress.{ea_getaddr, ea_read, ea_write}
use newmacemu.EffectiveAddress.Stacked.{long_step}
use newmacemu.Instruction.{reg_of, type_of, dn_of, rewritten}
use newmacemu.Instruction.Binary.{add_to_ea}

read_be-small : (p : ℕ → ℕ) (a : ℕ) → IsBytes p → read_be long p a < 2 ^ 32
unfolding read_be
read_be-small p a bytes = grind (arith, bytes a, bytes (a + 1), bytes (a + 2), bytes (a + 3))

module _ {Io : Type 0} (devices : Devices Io) (mmu : Mmu Io) where
  -- The machine that has read the operand.
  abbrev pub read_by : ℕ → Machine Io → Machine Io
  read_by op m = record m {
    a = update m.a (reg_of op) (offset (m.a (reg_of op)) 4);
    ea = m.a (reg_of op);
    bus_lock = true;
  }

  rewritten-incremented :
      (op : ℕ) (f : ℕ → Machine Io → Alu) (m : Machine Io)
      → type_of op ≡ 3
      → InRam long (m.a (reg_of op)) m
      → IsBytes m.ram
      → rewritten devices mmu long f op m
        ≡ ok tt (record (read_by op m) {
          bus_lock = false;
          ccr = (f (read_be long m.ram (m.a (reg_of op))) (read_by op m)).ccr;
          ram =
              write_be long m.ram
                (m.a (reg_of op))
                (f (read_be long m.ram (m.a (reg_of op))) (read_by op m)).value;
        })
  unfolding ea_read ea_write ea_getaddr
  rewritten-incremented op f m mode inside bytes =
      let v = read_be long m.ram (m.a (reg_of op)) in
      let r = f v (read_by op m) in
      let whole : v % 2 ^ 32 ≡ v = omega (arith, read_be-small m.ram (m.a (reg_of op)) bytes) in
      rw
        (
          mode,
          long_step (reg_of op),
          read_l-ram devices mmu (m.a (reg_of op)) (read_by op m) inside bytes,
          whole,
          write_l-ram devices mmu (m.a (reg_of op)) r.value (record (read_by op m) { ccr = r.ccr })
              inside,
        )
        refl

  -- ADD.L of a data register to (An)+, in RAM while no translation is enabled, ends normally: the sum stands
  -- where the operand was read, the address register is stepped once, by four, the bus is
  -- unlocked, and the condition codes are those of the sum.
  pub add_to_ea-IsSum :
      (op : ℕ) (m : Machine Io)
      → type_of op ≡ 3
      → InRam long (m.a (reg_of op)) m
      → IsBytes m.ram
      → (after : Machine Io) × (add_to_ea devices mmu long op m ≡ ok tt after)
        × (after.a (reg_of op) ≡ offset (m.a (reg_of op)) 4)
        × (after.bus_lock ≡ false)
        × IsSum long
            (read_be long m.ram (m.a (reg_of op)))
            (m.d (dn_of op) % 2 ^ 32)
            (record { ccr = after.ccr; value = read_be long after.ram (m.a (reg_of op)) })
  unfolding add_to_ea
  add_to_ea-IsSum op m mode inside bytes =
      let v = read_be long m.ram (m.a (reg_of op)) in
      let x : ℕ = m.d (dn_of op) % 2 ^ 32 in
      let r = add long m.ccr v x in
      let sum =
        add-IsSum long m.ccr v x (read_be-small m.ram (m.a (reg_of op)) bytes) (omega arith) in
      let small : r.value < 2 ^ 32 = rw sum.value (omega arith) in
      let same : (reg_of op == reg_of op) ≡ true = ground arith in
      let kept = read_be-write_be long m.ram (m.a (reg_of op)) r.value small in
      (
        record (read_by op m) {
          bus_lock = false;
          ccr = r.ccr;
          ram = write_be long m.ram (m.a (reg_of op)) r.value;
        },
        rewritten-incremented op (λ v m. add long m.ccr v (m.d (dn_of op) % 2 ^ 32)) m mode inside
            bytes,
        rw same refl,
        refl,
        record {
          value = kept ∙ sum.value;
          carry = sum.carry;
          extend = sum.extend;
          overflow = sum.overflow;
          negative = rw kept sum.negative;
          zero = rw kept sum.zero;
        },
      )
