-- ===== src/Examples/Boards.antt =====
-- The boards at concrete addresses, with chips that answer every read by the register's number and add
-- up the bytes that are written.
use newmacemu.Common.{ℕ, ◌+◌, ◌≡◌, refl, true, some}
use newmacemu.Boards.{Chips, glue, in_pds, write_place, io_read_b, io_write_b}
use newmacemu.Boards.Expansion.{slot, io_read_b-io_write_b}

abbrev counting : Chips ℕ
counting = record { chip_read = λ c n s. (some n, s); chip_write = λ c n v s. (true, s + v) }

io_read_b-io_write_b_example :
    (io_read_b counting glue 0x8000001 ((io_write_b counting glue 0x8000001 7 (slot (λ j. j) 5)).1)
      ≡ (some 7, (io_write_b counting glue 0x8000001 7 (slot (λ j. j) 5)).1))
    × ((io_write_b counting glue 0x8000001 7 (slot (λ j. j) 5)).0 ≡ true)
unfolding in_pds write_place
io_read_b-io_write_b_example =
    io_read_b-io_write_b counting glue 0x8000001 0x8000001 7 (λ j. j) 5 refl refl
