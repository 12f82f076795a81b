-- ===== src/Memory/Access.antt =====
-- src/memory.cc, its second part: ReadB to WriteSL, which turn a PTestError into an access fault.
use newmacemu.Common.{ℕ, ◌/◌, ◌*◌, true, false, bit_or, byte, word, long}
use newmacemu.Machine.{Machine, M, bind, ◌>>=◌}
use newmacemu.Bus.{Devices, do_bus16, copy_from, copy_to}
use newmacemu.Memory.{
  Mmu, siz, tm_data, tm_code, tt_move16, tt_alt, caught, fault_as, read_b_impl, read_w_impl,
  read_l_impl, write_b_impl, write_w_impl, write_l_impl,
}

-- TM::USER_DATA, and the function codes of MOVES.
abbrev user_data : {Io : Type 0} → Machine Io → ℕ
user_data m = 1

abbrev source_code : {Io : Type 0} → Machine Io → ℕ
source_code m = m.sfc

abbrev destination_code : {Io : Type 0} → Machine Io → ℕ
destination_code m = m.dfc

-- `addr & ~0xf`.
abbrev line_of : ℕ → ℕ
line_of addr = addr / 16 * 16

module _ {Io : Type 0} (devices : Devices Io) (mmu : Mmu Io) where
  unfoldable pub read_b : ℕ → M Io ℕ
  read_b addr m =
      caught (fault_as addr (siz byte) true tm_data 0) (read_b_impl devices mmu addr m.bus_lock m)

  unfoldable pub read_w : ℕ → M Io ℕ
  read_w addr m =
      caught (fault_as addr (siz word) true tm_data 0)
        (read_w_impl devices mmu addr false m.bus_lock m)

  unfoldable pub fetch_w : ℕ → M Io ℕ
  fetch_w addr m =
      caught (fault_as addr (siz word) true tm_code 0) (read_w_impl devices mmu addr true false m)

  unfoldable pub read_l : ℕ → M Io ℕ
  read_l addr m =
      caught (fault_as addr (siz long) true tm_data 0) (read_l_impl devices mmu addr m.bus_lock m)

  unfoldable pub write_b : ℕ → ℕ → M Io (Unit {0})
  write_b addr b m =
      caught (fault_as addr (siz byte) false tm_data 0) (write_b_impl devices mmu addr b m)

  unfoldable pub write_w : ℕ → ℕ → M Io (Unit {0})
  write_w addr w m =
      caught (fault_as addr (siz word) false tm_data 0) (write_w_impl devices mmu addr w m)

  unfoldable pub write_l : ℕ → ℕ → M Io (Unit {0})
  write_l addr l m =
      caught (fault_as addr (siz long) false tm_data 0) (write_l_impl devices mmu addr l m)

  -- Read16(addr, to): the block that is copied to `to`.
  unfoldable pub read16 : ℕ → M Io (ℕ → ℕ)
  unfolding do_bus16
  read16 addr m = caught (fault_as addr 3 true user_data tt_move16) (
      bind (mmu.ptest_and_check addr false false m)
        λ paddr. do_bus16 paddr >>= λ maddr. copy_from maddr)

  -- Write16(addr, from): its handler adds to the fault word that is there.
  unfoldable pub write16 : ℕ → (ℕ → ℕ) → M Io (Unit {0})
  unfolding do_bus16
  write16 addr block m =
      caught (λ code m1. fault_as addr 3 false user_data tt_move16 (bit_or m1.fault_ssw code) m1)
        (bind (mmu.ptest_and_check addr false true m)
          λ paddr. do_bus16 paddr >>= λ maddr. copy_to maddr block)

  unfoldable pub transfer16 : ℕ → ℕ → M Io (Unit {0})
  transfer16 src dst = do block ← read16 (line_of src); write16 (line_of dst) block

  unfoldable pub read_sb : ℕ → M Io ℕ
  read_sb addr m =
      caught (fault_as addr (siz byte) true source_code tt_alt)
        (read_b_impl devices mmu addr false m)

  unfoldable pub read_sw : ℕ → M Io ℕ
  read_sw addr m =
      caught (fault_as addr (siz word) true source_code tt_alt)
        (read_w_impl devices mmu addr false false m)

  unfoldable pub read_sl : ℕ → M Io ℕ
  read_sl addr m =
      caught (fault_as addr (siz long) true source_code tt_alt)
        (read_l_impl devices mmu addr false m)

  unfoldable pub write_sb : ℕ → ℕ → M Io (Unit {0})
  write_sb addr b m =
      caught (fault_as addr (siz byte) false destination_code tt_alt)
        (write_b_impl devices mmu addr b m)

  unfoldable pub write_sw : ℕ → ℕ → M Io (Unit {0})
  write_sw addr w m =
      caught (fault_as addr (siz word) false destination_code tt_alt)
        (write_w_impl devices mmu addr w m)

  unfoldable pub write_sl : ℕ → ℕ → M Io (Unit {0})
  write_sl addr l m =
      caught (fault_as addr (siz long) false destination_code tt_alt)
        (write_l_impl devices mmu addr l m)
