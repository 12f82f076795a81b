-- ===== src/Memory/Alignment.antt =====
-- Accesses to RAM while no translation is enabled: an operand is the same bytes whether or
-- not it is aligned.
use newmacemu.Common.{
  ℕ, suc, not, ◌&&◌, ◌+◌, ◌*◌, ◌/◌, ◌%◌, ◌^◌, ◌<◌, ◌≤◌, ◌≡◌, refl, ap, ap₂, ◌∙◌, arith, Bool, true,
  false, bit_or, bit, ltb, leb, Bool-cases, inl, inr, Size, byte, word, long,
}
use newmacemu.Common.Mask.{bit_or-add}
use newmacemu.Machine.{IsOff, Machine, ok, update}
use newmacemu.Bus.{Devices, width, read_be, write_be, bus_read, bus_write}
use newmacemu.Bus.Endian.{read_be-write_be, width-pos, inside-leb}
use newmacemu.Memory.{
  Mmu, offset, read_b_impl, read_w_impl, read_l_impl, write_b_impl, write_w_impl, write_l_impl,
}
use newmacemu.Memory.Access.{read_w, read_l, write_w, write_l}

-- RAM ends below the ROM's addresses, and no translation is enabled.
abbrev pub IsPlain : {Io : Type 0} → Machine Io → Type 0
IsPlain m = (m.ram_size ≤ 2 ^ 30) × IsOff m.paging

-- The operand lies in RAM, and no translation is enabled.
abbrev pub InRam : {Io : Type 0} → Size → ℕ → Machine Io → Type 0
InRam w addr m = (addr + width w ≤ m.ram_size) × IsPlain m

abbrev pub IsBytes : (ℕ → ℕ) → Type 0
IsBytes p = (i : ℕ) → p i < 2 ^ 8

decoded :
    (addr size : ℕ)
    → addr < size
    → size ≤ 2 ^ 30
    → (ltb (addr / 2 ^ 28) 4 ≡ true) × (leb size addr ≡ false)
decoded addr size h k = (ground arith, ground arith)

offset-small : (addr j size : ℕ) → addr + suc j ≤ size → size ≤ 2 ^ 30 → offset addr j ≡ addr + j
offset-small addr j size h k = omega arith

joined_sum :
    (a b c d : ℕ)
    → (a * 2 ^ 8 + b) * 2 ^ 16 + (c * 2 ^ 8 + d) ≡ a * 2 ^ 24 + b * 2 ^ 16 + c * 2 ^ 8 + d
joined_sum a b c d = omega arith

joined_words :
    (p : ℕ → ℕ) (i : ℕ)
    → IsBytes p
    → bit_or (read_be word p i * 2 ^ 16) (read_be word p (i + 2)) ≡ read_be long p i
unfolding read_be
joined_words p i bytes =
    let next : i + 2 + 1 ≡ i + 3 = omega arith in
    bit_or-add 16 (p i * 2 ^ 8 + p (i + 1)) (p (i + 2) * 2 ^ 8 + p (i + 2 + 1))
      (grind (arith, bytes (i + 2), bytes (i + 2 + 1)))
    ∙ rw next (joined_sum (p i) (p (i + 1)) (p (i + 2)) (p (i + 3)))

bytes_written :
    (p : ℕ → ℕ) (i v : ℕ)
    → write_be byte (write_be byte p i (v / 2 ^ 8 % 2 ^ 8)) (i + 1) (v % 2 ^ 8)
      ≡ write_be word p i v
unfolding write_be
bytes_written p i v = ap₂ (λ x y. update (update p i x) (i + 1) y) (omega arith) (omega arith)

words_written :
    (p : ℕ → ℕ) (i v : ℕ)
    → write_be word (write_be word p i (v / 2 ^ 16 % 2 ^ 16)) (i + 2) (v % 2 ^ 16)
      ≡ write_be long p i v
unfolding write_be
words_written p i v =
    let next : i + 2 + 1 ≡ i + 3 = omega arith in
    let v3 : v / 2 ^ 16 % 2 ^ 16 / 2 ^ 8 % 2 ^ 8 ≡ v / 2 ^ 24 % 2 ^ 8 = omega arith in
    let v2 : v / 2 ^ 16 % 2 ^ 16 % 2 ^ 8 ≡ v / 2 ^ 16 % 2 ^ 8 = omega arith in
    let v1 : v % 2 ^ 16 / 2 ^ 8 % 2 ^ 8 ≡ v / 2 ^ 8 % 2 ^ 8 = omega arith in
    let v0 : v % 2 ^ 16 % 2 ^ 8 ≡ v % 2 ^ 8 = omega arith in rw (next, v3, v2, v1, v0) refl

abbrev after_byte : {Io : Type 0} → Machine Io → ℕ → ℕ → Machine Io
after_byte m addr v = record m { ram = write_be byte m.ram addr (v / 2 ^ 8 % 2 ^ 8) }

module _ {Io : Type 0} (devices : Devices Io) (mmu : Mmu Io) where
  bus_read-ram :
      (w : Size) (addr : ℕ) (m : Machine Io)
      → addr + width w ≤ m.ram_size
      → m.ram_size ≤ 2 ^ 30
      → bus_read devices w addr m ≡ ok (read_be w m.ram addr) m
  unfolding bus_read
  bus_read-ram w addr m h k =
      let d = decoded addr m.ram_size (width-pos w addr m.ram_size h) k in
      rw (d.0, d.1, inside-leb (addr + width w) m.ram_size h) refl

  bus_write-ram :
      (w : Size) (addr v : ℕ) (m : Machine Io)
      → addr + width w ≤ m.ram_size
      → m.ram_size ≤ 2 ^ 30
      → bus_write devices w addr v m ≡ ok tt (record m { ram = write_be w m.ram addr v })
  unfolding bus_write
  bus_write-ram w addr v m h k =
      let d = decoded addr m.ram_size (width-pos w addr m.ram_size h) k in
      rw (d.0, d.1, inside-leb (addr + width w) m.ram_size h) refl

  read_b_impl-ram :
      (addr : ℕ) (lock : Bool) (m : Machine Io)
      → addr < m.ram_size
      → IsPlain m
      → read_b_impl devices mmu addr lock m ≡ ok (m.ram addr) m
  unfolding read_b_impl read_be
  read_b_impl-ram addr lock m h k =
      rw (mmu.flat addr false lock m k.1 (omega arith)) (bus_read-ram byte addr m (omega arith) k.0)

  write_b_impl-ram :
      (addr v : ℕ) (m : Machine Io)
      → addr < m.ram_size
      → IsPlain m
      → write_b_impl devices mmu addr v m ≡ ok tt (record m { ram = write_be byte m.ram addr v })
  unfolding write_b_impl
  write_b_impl-ram addr v m h k =
      rw (mmu.flat addr false true m k.1 (omega arith))
        (bus_write-ram byte addr v m (omega arith) k.0)

  read_w_impl-ram :
      (addr : ℕ) (code lock : Bool) (m : Machine Io)
      → InRam word addr m
      → IsBytes m.ram
      → read_w_impl devices mmu addr code lock m ≡ ok (read_be word m.ram addr) m
  unfolding read_w_impl read_be
  read_w_impl-ram addr code lock m (h, k) bytes = elim (Bool-cases (not code && bit addr 0)) [
    | inl odd ↦
        rw
          (
            odd,
            read_b_impl-ram addr lock m (omega arith) k,
            offset-small addr 1 m.ram_size h k.0,
            read_b_impl-ram (addr + 1) lock m (omega arith) k,
          )
          (ap (λ v. ok v m) (bit_or-add 8 (m.ram addr) (m.ram (addr + 1)) (bytes (addr + 1))))
    | inr even ↦
        rw (even, mmu.flat addr code lock m k.1 (omega arith))
          (bus_read-ram word addr m (omega arith) k.0)
  ]

  pub read_l_impl-ram :
      (addr : ℕ) (lock : Bool) (m : Machine Io)
      → InRam long addr m
      → IsBytes m.ram
      → read_l_impl devices mmu addr lock m ≡ ok (read_be long m.ram addr) m
  unfolding read_l_impl read_be
  read_l_impl-ram addr lock m (h, k) bytes = elim (Bool-cases (bit addr 1)) [
    | inl split ↦
        rw
          (
            split,
            read_w_impl-ram addr false lock m (omega arith, k) bytes,
            offset-small addr 2 m.ram_size (omega arith) k.0,
            read_w_impl-ram (addr + 2) false lock m (omega arith, k) bytes,
          )
          (ap (λ v. ok v m) (joined_words m.ram addr bytes))
    | inr whole ↦
        rw (whole, mmu.flat addr false lock m k.1 (omega arith))
          (bus_read-ram long addr m (omega arith) k.0)
  ]

  pub write_w_impl-ram :
      (addr v : ℕ) (m : Machine Io)
      → InRam word addr m
      → write_w_impl devices mmu addr v m ≡ ok tt (record m { ram = write_be word m.ram addr v })
  unfolding write_w_impl write_be
  write_w_impl-ram addr v m (h, k) = elim (Bool-cases (bit addr 0)) [
    | inl odd ↦
        rw
          (
            odd,
            write_b_impl-ram addr (v / 2 ^ 8 % 2 ^ 8) m (omega arith) k,
            offset-small addr 1 m.ram_size h k.0,
            write_b_impl-ram (addr + 1) (v % 2 ^ 8) (after_byte m addr v) (omega arith) k,
          )
          (ap (λ p. ok tt (record m { ram = p })) (bytes_written m.ram addr v))
    | inr even ↦
        rw (even, mmu.flat addr false true m k.1 (omega arith))
          (bus_write-ram word addr v m (omega arith) k.0)
  ]

  write_l_impl-ram :
      (addr v : ℕ) (m : Machine Io)
      → InRam long addr m
      → write_l_impl devices mmu addr v m ≡ ok tt (record m { ram = write_be long m.ram addr v })
  unfolding write_l_impl write_be
  write_l_impl-ram addr v m (h, k) = elim (Bool-cases (bit addr 1)) [
    | inl split ↦
        rw
          (
            split,
            write_w_impl-ram addr (v / 2 ^ 16 % 2 ^ 16) m (omega arith, k),
            offset-small addr 2 m.ram_size (omega arith) k.0,
            write_w_impl-ram (addr + 2) (v % 2 ^ 16)
                (record m { ram = write_be word m.ram addr (v / 2 ^ 16 % 2 ^ 16) })
                (omega arith, k),
          )
          (ap (λ p. ok tt (record m { ram = p })) (words_written m.ram addr v))
    | inr whole ↦
        rw (whole, mmu.flat addr false true m k.1 (omega arith))
          (bus_write-ram long addr v m (omega arith) k.0)
  ]

  pub write_be-IsBytes : (w : Size) (p : ℕ → ℕ) (i v : ℕ) → IsBytes p → IsBytes (write_be w p i v)
  unfolding write_be
  write_be-IsBytes byte p i v h j = ground (arith, h j)
  write_be-IsBytes word p i v h j = ground (arith, h j)
  write_be-IsBytes long p i v h j = ground (arith, h j)

  -- While no translation is enabled, WriteL of a 32-bit value into RAM ends normally at any
  -- alignment and changes only the operand's four bytes, and ReadL then gives the value back.
  pub read_l-write_l :
      (addr v : ℕ) (m : Machine Io)
      → InRam long addr m
      → IsBytes m.ram
      → v < 2 ^ 32
      → (after : Machine Io) × (write_l devices mmu addr v m ≡ ok tt after)
        × (read_l devices mmu addr after ≡ ok v after)
        × (after ≡ record m { ram = write_be long m.ram addr v })
  unfolding write_l read_l
  read_l-write_l addr v m inside bytes small =
      let p = write_be long m.ram addr v in
      let after : Machine Io = record m { ram = p } in
      (
        after,
        rw (write_l_impl-ram addr v m inside) refl,
        rw
            (
              read_l_impl-ram addr m.bus_lock after inside
                  (write_be-IsBytes long m.ram addr v bytes),
              read_be-write_be long m.ram addr v small,
            )
            refl,
        refl,
      )

  pub read_w-ram :
      (addr : ℕ) (m : Machine Io)
      → InRam word addr m
      → IsBytes m.ram
      → read_w devices mmu addr m ≡ ok (read_be word m.ram addr) m
  unfolding read_w
  read_w-ram addr m inside bytes = rw (read_w_impl-ram addr false m.bus_lock m inside bytes) refl

  pub write_w-ram :
      (addr v : ℕ) (m : Machine Io)
      → InRam word addr m
      → write_w devices mmu addr v m ≡ ok tt (record m { ram = write_be word m.ram addr v })
  unfolding write_w
  write_w-ram addr v m inside = rw (write_w_impl-ram addr v m inside) refl

  pub read_l-ram :
      (addr : ℕ) (m : Machine Io)
      → InRam long addr m
      → IsBytes m.ram
      → read_l devices mmu addr m ≡ ok (read_be long m.ram addr) m
  unfolding read_l
  read_l-ram addr m inside bytes = rw (read_l_impl-ram addr m.bus_lock m inside bytes) refl

  pub write_l-ram :
      (addr v : ℕ) (m : Machine Io)
      → InRam long addr m
      → write_l devices mmu addr v m ≡ ok tt (record m { ram = write_be long m.ram addr v })
  unfolding write_l
  write_l-ram addr v m inside = rw (write_l_impl-ram addr v m inside) refl
