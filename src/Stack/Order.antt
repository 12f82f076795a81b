-- ===== src/Stack/Order.antt =====
-- The stack in RAM, while no translation is enabled.
use newmacemu.Common.{ℕ, ◌+◌, ◌/◌, ◌%◌, ◌^◌, ◌<◌, ◌≡◌, refl, ap, arith, word, long}
use newmacemu.Common.Mask.{bit_or-add}
use newmacemu.Machine.{Machine, ok, update}
use newmacemu.Bus.{Devices, read_be, write_be}
use newmacemu.Bus.Endian.{read_be-write_be}
use newmacemu.Memory.{Mmu, offset}
use newmacemu.Memory.Alignment.{InRam, IsBytes, IsPlain, read_w-ram, write_w-ram, write_be-IsBytes}
use newmacemu.Stack.{below, push32, pop32}

-- Memory after PUSH32(v) with the stack pointer at base + 4.
abbrev pub pushed : (ℕ → ℕ) → ℕ → ℕ → ℕ → ℕ
pushed p base v = write_be word (write_be word p (base + 2) (v % 2 ^ 16)) base (v / 2 ^ 16)

abbrev pub after_push : {Io : Type 0} → Machine Io → ℕ → ℕ → Machine Io
after_push m base v = record m { ram = pushed m.ram base v; a = update m.a 7 base }

-- Room for four bytes in RAM below the stack pointer.
abbrev pub HasRoom : {Io : Type 0} → ℕ → Machine Io → Type 0
HasRoom base m = (m.a 7 ≡ base + 4) × InRam long base m × IsBytes m.ram

module _ {Io : Type 0} (devices : Devices Io) (mmu : Mmu Io) where
  pub push32-ram :
      (base v : ℕ) (m : Machine Io)
      → HasRoom base m
      → push32 devices mmu v m ≡ ok tt (after_push m base v)
  unfolding push32
  push32-ram base v m (at, (h, k), bytes) =
      let two : below (base + 4) 2 ≡ base + 2 = omega arith in
      let four : below (base + 4) 4 ≡ base = omega arith in
      rw
        (
          at,
          two,
          four,
          write_w-ram devices mmu (base + 2) (v % 2 ^ 16) m (omega arith, k),
          write_w-ram devices mmu base (v / 2 ^ 16)
              (record m { ram = write_be word m.ram (base + 2) (v % 2 ^ 16) }) (omega arith, k),
        )
        refl

  high_word :
      (p : ℕ → ℕ) (base v : ℕ) → v < 2 ^ 32 → read_be word (pushed p base v) base ≡ v / 2 ^ 16
  high_word p base v small =
      read_be-write_be word (write_be word p (base + 2) (v % 2 ^ 16)) base (v / 2 ^ 16)
        (omega arith)

  low_word : (p : ℕ → ℕ) (base v : ℕ) → read_be word (pushed p base v) (base + 2) ≡ v % 2 ^ 16
  unfolding read_be write_be
  low_word p base v = ground arith

  -- POP32 on any machine whose RAM, stack pointer and RAM size are those after the push.
  pub pop32-pushed :
      (base v : ℕ) (m after : Machine Io)
      → HasRoom base m
      → v < 2 ^ 32
      → after.ram ≡ pushed m.ram base v
      → after.a 7 ≡ base
      → after.ram_size ≡ m.ram_size
      → after.paging ≡ m.paging
      → pop32 devices mmu after ≡ ok (v % 2 ^ 16) (record after { a = update after.a 7 (m.a 7) })
  unfolding pop32
  pop32-pushed base v m after (at, (h, k), bytes) small same_ram same_sp same_size same_paging =
      let old_bytes : IsBytes (pushed m.ram base v) =
        write_be-IsBytes devices mmu word (write_be word m.ram (base + 2) (v % 2 ^ 16)) base
          (v / 2 ^ 16) (write_be-IsBytes devices mmu word m.ram (base + 2) (v % 2 ^ 16) bytes) in
      let all_bytes : IsBytes after.ram = λ i. rw same_ram (old_bytes i) in
      let plain : IsPlain after = (omega arith, rw same_paging (k.1)) in
      let next : offset base 2 ≡ base + 2 = omega arith in
      let end : offset base 4 ≡ base + 4 = omega arith in
      let high : read_be word after.ram base ≡ v / 2 ^ 16 =
        rw same_ram (high_word m.ram base v small) in
      let low : read_be word after.ram (base + 2) ≡ v % 2 ^ 16 =
        rw same_ram (low_word m.ram base v) in
      rw
        (
          same_sp,
          read_w-ram devices mmu base after (omega arith, plain) all_bytes,
          next,
          read_w-ram devices mmu (base + 2) after (omega arith, plain) all_bytes,
          end,
          high,
          low,
          bit_or-add 16 (v / 2 ^ 16) (v % 2 ^ 16) (omega arith),
          at,
        )
        (ap (λ x. ok x (record after { a = update after.a 7 (base + 4) })) (omega arith))

  -- PUSH32 of a 32-bit value onto a stack with room in RAM, while no translation is enabled,
  -- and then POP32 end normally and leave the stack pointer where it was, but POP32 answers only the
  -- value's low 16 bits.
  pub pop32-push32 :
      (base v : ℕ) (m : Machine Io)
      → HasRoom base m
      → v < 2 ^ 32
      → (after : Machine Io) × (push32 devices mmu v m ≡ ok tt after)
        × (pop32 devices mmu after
            ≡ ok (v % 2 ^ 16) (record after { a = update after.a 7 (m.a 7) }))
        × (after.ram ≡ pushed m.ram base v)
  pop32-push32 base v m room small =
      let after = after_push m base v in
      (
        after,
        push32-ram base v m room,
        pop32-pushed base v m after room small refl refl refl refl,
        refl,
      )
