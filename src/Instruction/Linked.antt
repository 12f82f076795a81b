-- ===== src/Instruction/Linked.antt =====
-- src/cpu/op.cc: LINK and UNLK.
use newmacemu.Common.{ℕ, ◌%◌, ◌^◌, ◌<◌, ◌≡◌, ◌≢◌, refl, arith, true, false, ◌==◌, word, sign_extend}
use newmacemu.Machine.{Machine, ok, update}
use newmacemu.Bus.{Devices}
use newmacemu.Memory.{Mmu, offset}
use newmacemu.Stack.Order.{HasRoom, pushed, after_push, push32-ram, pop32-pushed}
use newmacemu.Fetch.{fetch}
use newmacemu.Instruction.{reg_of}
use newmacemu.Instruction.Flow.{link_w, unlk}

module _ {Io : Type 0} (devices : Devices Io) (mmu : Mmu Io) where
  -- LINK.W on a register but A7, with room in RAM below the stack pointer and no translation enabled, ends
  -- normally with the frame's address in the register and the stack pointer moved by the
  -- displacement; and UNLK of the register, on any machine that still has that RAM and the frame's
  -- address, ends normally with the stack pointer from before LINK, but with only the low 16 bits of the
  -- register that LINK saved.
  pub unlk-link_w :
      (link unlink base disp : ℕ) (m fetched later : Machine Io)
      → reg_of link ≢ 7
      → reg_of unlink ≡ reg_of link
      → fetch devices mmu m ≡ ok disp fetched
      → HasRoom base fetched
      → fetched.a (reg_of link) < 2 ^ 32
      → later.ram ≡ pushed fetched.ram base (fetched.a (reg_of link))
      → later.ram_size ≡ fetched.ram_size
      → later.paging ≡ fetched.paging
      → later.a (reg_of link) ≡ base
      → ((after : Machine Io) × (link_w devices mmu link m ≡ ok tt after)
          × (after.a (reg_of link) ≡ base)
          × (after.a 7 ≡ offset base (sign_extend word disp))
          × (after.ram ≡ pushed fetched.ram base (fetched.a (reg_of link))))
        × ((back : Machine Io) × (unlk devices mmu unlink later ≡ ok tt back)
            × (back.a 7 ≡ fetched.a 7)
            × (back.a (reg_of link) ≡ fetched.a (reg_of link) % 2 ^ 16))
  unfolding link_w unlk
  unlk-link_w link unlink base disp m fetched later other same mask room small ram size paging
        frame =
      let away : (7 == reg_of link) ≡ false = ground arith in
      let here : (reg_of link == reg_of link) ≡ true = ground arith in
      let apart : (reg_of link == 7) ≡ false = ground arith in
      let old : ℕ = fetched.a (reg_of link) in
      let popping : Machine Io = record later { a = update later.a 7 base } in
      let called = after_push fetched base old in
      let framed : Machine Io = record called { a = update called.a (reg_of link) base } in
      let linked : Machine Io = record framed {
        a = update framed.a 7 (offset base (sign_extend word disp));
      } in
      let popped : Machine Io = record popping { a = update popping.a 7 (fetched.a 7) } in
      let unlinked : Machine Io = record popped {
        a = update popped.a (reg_of link) (old % 2 ^ 16);
      } in
      (
        (
          linked,
          rw (mask, push32-ram devices mmu base old fetched room, away) refl,
          rw (apart, here) refl,
          refl,
          refl,
        ),
        (
          unlinked,
          rw
              (
                same,
                frame,
                pop32-pushed devices mmu base old fetched popping room small ram refl size paging,
              )
              refl,
          rw away refl,
          rw here refl,
        ),
      )
