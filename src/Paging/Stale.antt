-- ===== src/Paging/Stale.antt =====
-- The cache lines that a search of the page tables leaves behind.
use newmacemu.Common.{ℕ, ◌≡◌, refl, Bool, bit_and, long}
use newmacemu.Machine.{Machine, ok}
use newmacemu.Bus.{Devices, bus_read}
use newmacemu.Paging.Search.{atc_set}

module _ {Io : Type 0} (devices : Devices Io) where
  -- An invalid page descriptor, whose low two bits are zero, leaves the machine and so the cache line as
  -- they were after its read.
  pub atc_set-invalid :
      (code : Bool) (addr pg_addr pg : ℕ) (w wp s : Bool) (m after : Machine Io)
      → bus_read devices long pg_addr m ≡ ok pg after
      → bit_and pg 3 ≡ 0
      → atc_set devices code addr pg_addr w wp s m ≡ ok tt after
  unfolding atc_set
  atc_set-invalid code addr pg_addr pg w wp s m after read invalid = rw (read, invalid) refl
