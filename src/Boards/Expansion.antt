-- ===== src/Boards/Expansion.antt =====
-- The memory of the expansion slot, on every board.
use newmacemu.Common.{
  ℕ, ◌≡◌, refl, ap, ◌∙◌, Bool, true, false, Option, none, some, ◌==◌, if◌then◌else◌,
}
use newmacemu.Machine.{update}
use newmacemu.Boards.{
  Chip, Model, Chips, BoardIo, in_pds, write_place, pds_place, io_read_b, io_write_b, write_chip,
}

-- The devices with memory p in the slot.
abbrev pub slot : {S : Type 0} → (ℕ → ℕ) → S → BoardIo S
slot p c = record { pds = some p; chips = c }

if-some : (b : Bool) (v w : ℕ) → some (if b then v else w) ≡ (if b then some v else some w)
if-some true v w = refl
if-some false v w = refl

module _ {S : Type 0} (methods : Chips S) (board : Model) where
  read_slot :
      (addr : ℕ) (p : ℕ → ℕ) (c : S)
      → in_pds board addr ≡ true
      → io_read_b methods board addr (slot p c) ≡ (some (p (pds_place board addr)), slot p c)
  unfolding io_read_b
  read_slot addr p c on = rw on refl

  -- A chip leaves the slot's memory alone, and does not see it.
  read_slot-write_chip :
      (place : Option (Chip × ℕ)) (addr v : ℕ) (q : ℕ → ℕ) (c : S)
      → in_pds board addr ≡ true
      → io_read_b methods board addr ((write_chip methods board place v (slot q c)).1)
        ≡ (some (q (pds_place board addr)), (write_chip methods board place v (slot q c)).1)
  read_slot-write_chip none addr v q c on = read_slot addr q c on
  read_slot-write_chip (some p) addr v q c on =
      read_slot addr q ((methods.chip_write (p.0) (p.1) v c).1) on

  write_chip-slot :
      (place : Option (Chip × ℕ)) (v : ℕ) (p q : ℕ → ℕ) (c : S)
      → (write_chip methods board place v (slot q c)).0
        ≡ (write_chip methods board place v (slot p c)).0
  write_chip-slot none v p q c = refl
  write_chip-slot (some _) v p q c = refl

  -- When the expansion slot has memory and two addresses select it, a byte is written to the first and
  -- the second is then read: the read gives the byte if both are the same place of the slot, and what
  -- stood there if not, whether or not the write ended in a BusError; and the write ends as the chip
  -- does that the address selects besides, in a BusError if there is none.
  pub io_read_b-io_write_b :
      (addr other v : ℕ) (p : ℕ → ℕ) (c : S)
      → in_pds board addr ≡ true
      → in_pds board other ≡ true
      → (io_read_b methods board other ((io_write_b methods board addr v (slot p c)).1) ≡ (
        (if pds_place board other == pds_place board addr
            then some v
            else some (p (pds_place board other))),
        (io_write_b methods board addr v (slot p c)).1,
      ))
        × ((io_write_b methods board addr v (slot p c)).0
            ≡ (write_chip methods board (write_place board addr) v (slot p c)).0)
  unfolding io_write_b
  io_read_b-io_write_b addr other v p c on on' =
      let place = write_place board addr in
      let q = update p (pds_place board addr) v in
      let same = pds_place board other == pds_place board addr in
      rw on (
        read_slot-write_chip place other v q c on'
            ∙ ap (λ t. (t, (write_chip methods board place v (slot q c)).1))
                (if-some same v (p (pds_place board other))),
        write_chip-slot place v p q c,
      )
