-- ===== src/Bus/Endian.antt =====
-- Memory is big-endian, and gives back what was written.
use newmacemu.Common.{
  ℕ, ◌+◌, ◌/◌, ◌^◌, ◌<◌, ◌≡◌, refl, arith, ltb, ap, true, false, Bool-cases, inl, inr, leb, ◌⊎◌,
  ◌≤◌, ◌&&◌, if◌then◌else◌, Size, byte, word, long, modulus,
}
use newmacemu.Machine.{Machine, ok, halted}
use newmacemu.Bus.{Devices, width, read_be, write_be, bus_read, bus_write}

pub read_be-write_be :
    (w : Size) (p : ℕ → ℕ) (i v : ℕ) → v < modulus w → read_be w (write_be w p i v) i ≡ v
unfolding read_be write_be
read_be-write_be byte p i v h = ground arith
read_be-write_be word p i v h = ground arith
read_be-write_be long p i v h = ground arith

-- Bytes outside the operand are left alone.
pub write_be-other :
    (w : Size) (p : ℕ → ℕ) (i v j : ℕ) → (j < i) ⊎ (i + width w ≤ j) → write_be w p i v j ≡ p j
unfolding write_be
write_be-other byte p i v j h = ground arith
write_be-other word p i v j h = ground arith
write_be-other long p i v j h = ground arith

framed :
    (w : Size) (p : ℕ → ℕ) (i v j : ℕ)
    → write_be w p i v j ≡ (if leb i j && ltb j (i + width w) then write_be w p i v j else p j)
framed w p i v j = elim (Bool-cases (leb i j && ltb j (i + width w))) [
  | inl inside ↦ rw inside
  | inr outside ↦ rw outside (write_be-other w p i v j (ground arith))
]

lt-ltb : (x y : ℕ) → x < y → ltb x y ≡ true
lt-ltb x y h = ground arith

lt-leb : (x y : ℕ) → y < x → leb x y ≡ false
lt-leb x y h = ground arith

pub width-pos : (w : Size) (addr size : ℕ) → addr + width w ≤ size → addr < size
width-pos byte addr size h = omega arith
width-pos word addr size h = omega arith
width-pos long addr size h = omega arith

pub inside-leb : (x y : ℕ) → x ≤ y → leb x y ≡ true
inside-leb x y h = ground arith

-- Reading or writing an operand that starts in RAM and runs past its end ends the run.
pub bus-overrun :
    {Io : Type 0} (devices : Devices Io) (w : Size) (addr v : ℕ) (m : Machine Io)
    → addr / 2 ^ 28 < 4
    → addr < m.ram_size
    → m.ram_size < addr + width w
    → (bus_read devices w addr m ≡ halted m) × (bus_write devices w addr v m ≡ halted m)
unfolding bus_read bus_write
bus-overrun devices w addr v m low within past =
    let area : ltb (addr / 2 ^ 28) 4 ≡ true = lt-ltb (addr / 2 ^ 28) 4 low in
    let room : leb m.ram_size addr ≡ false = lt-leb m.ram_size addr within in
    let ended : leb (addr + width w) m.ram_size ≡ false = lt-leb (addr + width w) m.ram_size past in
    (rw (area, room, ended) refl, rw (area, room, ended) refl)

-- For an operand that lies in RAM as a whole, a value of the size that is written is read back, and
-- every byte outside the operand is as it was.
pub bus_read-bus_write :
    {Io : Type 0} (devices : Devices Io) (w : Size) (addr v : ℕ) (m : Machine Io)
    → addr / 2 ^ 28 < 4
    → addr + width w ≤ m.ram_size
    → v < modulus w
    → (after : Machine Io) × (bus_write devices w addr v m ≡ ok tt after)
      × (bus_read devices w addr after ≡ ok v after)
      × ((j : ℕ)
          → after.ram j ≡ (if leb addr j && ltb j (addr + width w) then after.ram j else m.ram j))
unfolding bus_read bus_write
bus_read-bus_write devices w addr v m low within small =
    let area : ltb (addr / 2 ^ 28) 4 ≡ true = lt-ltb (addr / 2 ^ 28) 4 low in
    let some_room : leb m.ram_size addr ≡ false =
      lt-leb m.ram_size addr (width-pos w addr m.ram_size within) in
    let fits : leb (addr + width w) m.ram_size ≡ true =
      inside-leb (addr + width w) m.ram_size within in
    (
      record m { ram = write_be w m.ram addr v },
      rw (area, some_room, fits) refl,
      rw (area, some_room, fits)
          (ap (λ x. ok x (record m { ram = write_be w m.ram addr v }))
            (read_be-write_be w m.ram addr v small)),
      λ j. framed w m.ram addr v j,
    )
