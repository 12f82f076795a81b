-- ===== src/Bitfield/Insert.antt =====
-- src/cpu/bitfield.cc: BFINS_M, branch by branch on the number of bytes that the field reaches.
use newmacemu.Common.{
  ℕ, ◌+◌, ◌-◌, ◌*◌, ◌/◌, ◌%◌, ◌^◌, bit_and, bit_or, leb, if◌then◌else◌, long, not32,
  shift_right_int,
}
use newmacemu.Ccr.{test}
use newmacemu.Machine.{M, ◌>>=◌, ◌>>◌, modify}
use newmacemu.Bus.{Devices}
use newmacemu.Memory.{Mmu, offset as plus}
use newmacemu.Memory.Access.{read_b, write_b}
use newmacemu.Bitfield.{aligned}
use newmacemu.Bitfield.Memory.{field_base}

-- Conversions to uint8_t of `v >> n` and `v << n`.
abbrev pub byte_right : ℕ → ℕ → ℕ
byte_right v n = v / 2 ^ n % 2 ^ 8

abbrev pub byte_left : ℕ → ℕ → ℕ
byte_left v n = v * 2 ^ n % 2 ^ 8

module _ {Io : Type 0} (devices : Devices Io) (mmu : Mmu Io) where
  -- `old = ReadB(addr) & keep; WriteB(addr, old | part)`.
  abbrev insert : ℕ → ℕ → ℕ → M Io (Unit {0})
  insert addr keep part = do
    b ← read_b devices mmu addr
    write_b devices mmu addr (bit_or (bit_and b keep % 2 ^ 8) part)

  -- A field inside one byte, with the mask `-1 << (8 - width)` shifted to its place.
  abbrev insert_inside : ℕ → ℕ → ℕ → ℕ → M Io (Unit {0})
  insert_inside base o width v =
      let mask : ℕ = (2 ^ 8 - 2 ^ (8 - width)) / 2 ^ o in
      insert base (not32 mask) (bit_and (v * 2 ^ (8 - (width + o)) % 2 ^ 32) mask)

  -- The first byte of a longer field: `~mask >> offset`, the complement of an `int` shifted.
  abbrev insert_first : ℕ → ℕ → ℕ → ℕ → M Io (Unit {0})
  insert_first base o width v =
      insert base (shift_right_int (not32 (2 ^ 8 - 2 ^ o)) o) (byte_right v (width + o - 8))

  -- The first byte in the branch of three bytes: `~(mask >> offset)`.
  abbrev insert_first_of_three : ℕ → ℕ → ℕ → ℕ → M Io (Unit {0})
  insert_first_of_three base o width v =
      insert base (not32 ((2 ^ 8 - 2 ^ o) / 2 ^ o)) (byte_right v (width + o - 8))

  -- Byte k inside the field.
  abbrev insert_whole : ℕ → ℕ → ℕ → ℕ → M Io (Unit {0})
  insert_whole base ln k v = write_b devices mmu (plus base k) (byte_right v (ln - 8 * (k + 1)))

  -- Byte k, the last.
  abbrev insert_last : ℕ → ℕ → ℕ → ℕ → M Io (Unit {0})
  insert_last base ln k v =
      let n : ℕ = 8 * (k + 1) - ln in insert (plus base k) (not32 (2 ^ 8 - 2 ^ n)) (byte_left v n)

  abbrev insert_bytes : ℕ → ℕ → ℕ → ℕ → M Io (Unit {0})
  insert_bytes base o width v =
      let ln : ℕ = width + o in
      let whole : ℕ → M Io (Unit {0}) = λ k. insert_whole base ln k v in
      let last : ℕ → M Io (Unit {0}) = λ k. insert_last base ln k v in
      if leb ln 8
      then insert_inside base o width v
      else if leb ln 16
      then insert_first base o width v >> last 1
      else if leb ln 24
      then insert_first_of_three base o width v >> whole 1 >> last 2
      else if leb ln 32
      then insert_first base o width v >> whole 1 >> whole 2 >> last 3
      else insert_first base o width v >> whole 1 >> whole 2 >> whole 3 >> last 4

  -- V and C are not written.
  unfoldable pub bfins_m : ℕ → ℕ → ℕ → ℕ → M Io (Unit {0})
  unfolding test
  bfins_m addr off width v = do
    done ← modify (λ m. record m { ccr = test long (aligned v width) m.ccr })
    insert_bytes (field_base addr off) (off % 8) width v
