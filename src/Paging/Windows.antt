-- ===== src/Paging/Windows.antt =====
-- Accesses through a transparent window.
use newmacemu.Common.{
  ℕ, ◌/◌, ◌^◌, ◌<◌, ◌≡◌, refl, Bool, true, false, ◌&&◌, if◌then◌else◌, Bool-cases, inl, inr,
}
use newmacemu.Machine.{Machine, Ttr, ok, ptest_error}
use newmacemu.Bus.{Devices}
use newmacemu.Paging.{MmuResult, no_result, test_ttr, ptest_ttr, wrong_mode, in_window}
use newmacemu.Paging.Search.{ptest, ptest_and_check}
use newmacemu.Paging.Flat.{page_joined, large_joined}

-- Does the register, enabled, take accesses in this mode to this page?
pub record IsOpen (x : Ttr) (page : ℕ) (sys : Bool) : Type 0 where
  pub enabled : x.e ≡ true
  pub mode : wrong_mode x sys ≡ false
  pub inside : in_window x page ≡ true

abbrev opened : Ttr → ℕ → MmuResult
opened x page = record no_result { r = true; t = true; w = x.w; paddr = page }

test_ttr-open :
    (x : Ttr) (page : ℕ) (sys : Bool) → IsOpen x page sys → test_ttr x page sys ≡ opened x page
unfolding test_ttr
test_ttr-open x page sys open_ = rw (open_.enabled, open_.mode, open_.inside) refl

module _ {Io : Type 0} (devices : Devices Io) where
  -- A data access in the window of the first register: a write to a write-protected window is an access
  -- error; any other access goes to the address itself, for pages of either size and whether or not page
  -- tables are enabled; the machine stays as it was.
  pub ptest_and_check-window :
      (addr : ℕ) (w : Bool) (m : Machine Io)
      → addr < 2 ^ 32
      → IsOpen (m.paging.dttr 0) (addr / 2 ^ 12) m.s
      → ptest_and_check devices addr false w m
        ≡ (if (m.paging.dttr 0).w && w then ptest_error (2 ^ 10) m else ok addr m)
  unfolding ptest_and_check ptest ptest_ttr
  ptest_and_check-window addr w m h open_ = elim (Bool-cases ((m.paging.dttr 0).w && w)) [
    | inl protected ↦ rw (test_ttr-open (m.paging.dttr 0) (addr / 2 ^ 12) m.s open_, protected) refl
    | inr allowed ↦ elim (Bool-cases m.paging.tcr_p) [
      | inl large ↦
          rw
            (
              test_ttr-open (m.paging.dttr 0) (addr / 2 ^ 12) m.s open_,
              allowed,
              large,
              large_joined addr h,
              allowed,
            )
            refl
      | inr small ↦
          rw
            (
              test_ttr-open (m.paging.dttr 0) (addr / 2 ^ 12) m.s open_,
              allowed,
              small,
              page_joined addr h,
              allowed,
            )
            refl
    ]
  ]
