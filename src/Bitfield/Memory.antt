-- ===== src/Bitfield/Memory.antt =====
-- src/cpu/bitfield.cc: BF_M, BFTST_M, BFCHG_M, BFCLR_M, BFSET_M, BFEXTU_M, BFEXTS_M and BFFFO_M.
use newmacemu.Common.{
  ℕ, ◌+◌, ◌-◌, ◌*◌, ◌/◌, ◌%◌, ◌^◌, Bool, bit_and, bit_or, bit_xor, leb, ltb, if◌then◌else◌,
  shift_right_int,
}
use newmacemu.Ccr.{test}
use newmacemu.Machine.{M, ◌>>=◌, ◌>>◌, pure, modify}
use newmacemu.Bus.{Devices}
use newmacemu.Memory.{Mmu, offset as plus}
use newmacemu.Memory.Access.{read_b, write_b}
use newmacemu.Bitfield.{high_mask, tested, found}

-- `addr += (offset >> 3)`.
abbrev pub field_base : ℕ → ℕ → ℕ
field_base addr off = (addr + shift_right_int off 3) % 2 ^ 32

-- The five bytes as the 32 bits from the field's first bit on.
abbrev pub joined : ℕ → ℕ → ℕ → ℕ → ℕ → ℕ → ℕ
joined o b0 b1 b2 b3 b4 =
    bit_or
      (bit_or (bit_or (bit_or (b0 * 2 ^ (24 + o) % 2 ^ 32) (b1 * 2 ^ (16 + o))) (b2 * 2 ^ (8 + o)))
        (b3 * 2 ^ o))
      (b4 / 2 ^ (8 - o))

-- What BFCHG_M, BFCLR_M and BFSET_M do to the masked bits of a byte, and to a byte inside the field.
pub data Change : Type 0 where
  inverting clearing setting : Change

abbrev pub masked : Change → ℕ → ℕ → ℕ
masked inverting old mask = bit_xor old mask
masked clearing old mask = bit_and old (2 ^ 8 - 1 - mask)
masked setting old mask = bit_or old mask

module _ {Io : Type 0} (devices : Devices Io) (mmu : Mmu Io) where
  -- `if(width + offset > 8 * k) v |= ReadB(addr + k) ...`; a byte that is not read counts as zero.
  abbrev read_if : Bool → ℕ → M Io ℕ
  read_if cond addr = if cond then read_b devices mmu addr else pure 0

  unfoldable pub bf_m : ℕ → ℕ → ℕ → M Io ℕ
  bf_m addr off width =
      let base : ℕ = field_base addr off in
      let o : ℕ = off % 8 in
      read_b devices mmu base >>= λ b0. read_if (ltb 8 (width + o)) (plus base 1) >>= λ b1.
      read_if (ltb 16 (width + o)) (plus base 2) >>= λ b2.
      read_if (ltb 24 (width + o)) (plus base 3) >>= λ b3.
      read_if (ltb 32 (width + o)) (plus base 4) >>= λ b4.
      pure (bit_and (joined o b0 b1 b2 b3 b4) (high_mask width))

  unfoldable pub bftst_m : ℕ → ℕ → ℕ → M Io ℕ
  unfolding test
  bftst_m addr off width = do
    x ← bf_m addr off width
    done ← modify (λ m. record m { ccr = tested m.ccr x })
    pure x

  -- `WriteB(addr, ReadB(addr) ^ mask)` and its like.
  abbrev change_masked : Change → ℕ → ℕ → M Io (Unit {0})
  change_masked change addr mask = do
    old ← read_b devices mmu addr
    write_b devices mmu addr (masked change old mask)

  -- A byte inside the field: only BFCHG_M reads it.
  abbrev change_whole : Change → ℕ → M Io (Unit {0})
  change_whole inverting addr =
      read_b devices mmu addr >>= λ old. write_b devices mmu addr (2 ^ 8 - 1 - old)
  change_whole clearing addr = write_b devices mmu addr 0
  change_whole setting addr = write_b devices mmu addr 0xff

  -- The bytes after the test; `last` masks the byte k, of which the field covers the top bits.
  abbrev change_bytes : Change → ℕ → ℕ → ℕ → M Io (Unit {0})
  change_bytes change base o width =
      let ln : ℕ = width + o in
      let first = change_masked change base ((2 ^ 8 - 2 ^ o) / 2 ^ o) in
      let whole : ℕ → M Io (Unit {0}) = λ k. change_whole change (plus base k) in
      let last : ℕ → M Io (Unit {0}) =
        λ k. change_masked change (plus base k) (2 ^ 8 - 2 ^ (8 * (k + 1) - ln)) in
      if leb ln 8
      then change_masked change base ((2 ^ 8 - 2 ^ (8 - width)) / 2 ^ o)
      else if leb ln 16
      then first >> last 1
      else if leb ln 24
      then first >> whole 1 >> last 2
      else if leb ln 32
      then first >> whole 1 >> whole 2 >> last 3
      else first >> whole 1 >> whole 2 >> whole 3 >> last 4

  abbrev change_m : Change → ℕ → ℕ → ℕ → M Io (Unit {0})
  change_m change addr off width = do
    x ← bftst_m addr off width
    change_bytes change (field_base addr off) (off % 8) width

  unfoldable pub bfchg_m : ℕ → ℕ → ℕ → M Io (Unit {0})
  bfchg_m addr off width = change_m inverting addr off width

  unfoldable pub bfclr_m : ℕ → ℕ → ℕ → M Io (Unit {0})
  bfclr_m addr off width = change_m clearing addr off width

  unfoldable pub bfset_m : ℕ → ℕ → ℕ → M Io (Unit {0})
  bfset_m addr off width = change_m setting addr off width

  unfoldable pub bfextu_m : ℕ → ℕ → ℕ → M Io ℕ
  bfextu_m addr off width = do x ← bftst_m addr off width; pure (x / 2 ^ (32 - width))

  unfoldable pub bfexts_m : ℕ → ℕ → ℕ → M Io ℕ
  bfexts_m addr off width = do x ← bftst_m addr off width; pure (shift_right_int x (32 - width))

  unfoldable pub bfffo_m : ℕ → ℕ → ℕ → M Io ℕ
  bfffo_m addr off width = do x ← bftst_m addr off width; pure (found x off width)
