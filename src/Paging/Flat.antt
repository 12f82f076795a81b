-- ===== src/Paging/Flat.antt =====
-- The MMU as what memory access asks for.
use newmacemu.Common.{
  ℕ, ◌*◌, ◌/◌, ◌%◌, ◌^◌, ◌<◌, ◌≡◌, refl, ap, ap₂, ◌∙◌, ltb, ◌==◌, ◌-◌, arith, Bool, true, false,
  bit_and, bit_or, bit, not32, not, Bool-cases, inl, inr, if◌then◌else◌, ◌&&◌, ◌||◌,
}
use newmacemu.Common.Bits.{
  bit-bit_or, bit-bit_and, bit_ext, bit_and-lt, bit_or-lt, bit-not32, bit_above,
}
use newmacemu.Common.Mask.{bit_and-mod, bit_or-add}
use newmacemu.Common.Select.{bit-mod, bit-div, bit-pow}
use native.Mathlib.Nat.{mod-lt, one-le-pow}
use newmacemu.Rotate.Plain.{bit-shifted}
use newmacemu.Machine.{Machine, Paging, IsOff, ok}
use newmacemu.Bus.{Devices}
use newmacemu.Memory.{Mmu}
use newmacemu.Paging.{no_result, ptest_ttr}
use newmacemu.Paging.Search.{ptest, ptest_and_check}

ptest_ttr-off :
    (p : Paging) (addr : ℕ) (sys code : Bool) → IsOff p → ptest_ttr p addr sys code ≡ no_result
unfolding ptest_ttr
ptest_ttr-off p addr sys true off = rw (off.no_code_window 0, off.no_code_window 1) refl
ptest_ttr-off p addr sys false off = rw (off.no_data_window 0, off.no_data_window 1) refl

-- The page and the place in it are put together again, for pages of 4 and of 8 kilobytes.
pub page_joined :
    (addr : ℕ)
    → addr < 2 ^ 32
    → bit_or (addr / 2 ^ 12 * 2 ^ 12 % 2 ^ 32) (bit_and addr 0xfff) ≡ addr
page_joined addr h =
    let page : addr / 2 ^ 12 * 2 ^ 12 % 2 ^ 32 ≡ addr / 2 ^ 12 * 2 ^ 12 = omega arith in
    rw (page, bit_and-mod 12 addr)
      (bit_or-add 12 (addr / 2 ^ 12) (addr % 2 ^ 12) (omega arith) ∙ omega arith)

bit-page :
    (addr k : ℕ)
    → k < 32
    → bit (addr / 2 ^ 12 * 2 ^ 12 % 2 ^ 32) k ≡ (if ltb k 12 then false else bit addr k)
bit-page addr k h =
    bit-mod 32 k (addr / 2 ^ 12 * 2 ^ 12) h
    ∙ bit-shifted 12 k (addr / 2 ^ 12)
    ∙ elim (Bool-cases (ltb k 12)) [
      | inl low ↦ rw low refl
      | inr high ↦ rw high (bit-div 12 (k - 12) addr ∙ ap (bit addr) (ground arith))
    ]

large_page :
    (k : ℕ) (b : Bool)
    → (((if ltb k 12 then false else b) && not (k == 0)) || (if ltb k 13 then b else false)) ≡ b
large_page k b = ground arith

bit_low : (n k addr : ℕ) → bit (addr % 2 ^ n) k ≡ (if ltb k n then bit addr k else false)
bit_low n k addr = elim (Bool-cases (ltb k n)) [
  | inl low ↦ rw low (bit-mod n k addr (ground arith))
  | inr high ↦
      rw high
        (bit_above n k (addr % 2 ^ n) (mod-lt addr (one-le-pow n 2 (omega arith))) (ground arith))
]

pub large_joined :
    (addr : ℕ)
    → addr < 2 ^ 32
    → bit_or (bit_and (addr / 2 ^ 12 * 2 ^ 12 % 2 ^ 32) (not32 1)) (bit_and addr 0x1fff) ≡ addr
large_joined addr h =
    let page : ℕ = addr / 2 ^ 12 * 2 ^ 12 % 2 ^ 32 in
    bit_ext 32 (bit_or (bit_and page (not32 1)) (bit_and addr 0x1fff)) addr
      (bit_or-lt 32 (bit_and page (not32 1)) (bit_and addr 0x1fff)
        (bit_and-lt 32 page (not32 1) (omega arith)) (bit_and-lt 32 addr 0x1fff h))
      h
      λ k small.
        bit-bit_or k (bit_and page (not32 1)) (bit_and addr 0x1fff)
        ∙ ap₂ ◌||◌
            (bit-bit_and k page (not32 1)
              ∙ ap₂ ◌&&◌ (bit-page addr k small)
                  (bit-not32 k 1 small (omega arith) ∙ ap not (bit-pow 0 k)))
            (ap (λ (t : ℕ). bit t k) (bit_and-mod 13 addr) ∙ bit_low 13 k addr)
        ∙ large_page k (bit addr k)

module _ {Io : Type 0} (devices : Devices Io) where
  -- Without translation ptest answers with the page itself and changes nothing.
  pub ptest-off :
      (addr : ℕ) (sys code w : Bool) (m : Machine Io)
      → IsOff m.paging
      → ptest devices addr sys code w m ≡ ok (record no_result { r = true; paddr = addr }) m
  unfolding ptest
  ptest-off addr sys code w m off =
      rw (ptest_ttr-off m.paging addr sys code off, off.no_tables) refl

  -- While no translation is enabled, ptest_and_check gives every 32-bit address back, for pages of either
  -- size and every kind of access, and changes nothing.
  pub ptest_and_check-flat :
      (addr : ℕ) (code w : Bool) (m : Machine Io)
      → IsOff m.paging
      → addr < 2 ^ 32
      → ptest_and_check devices addr code w m ≡ ok addr m
  unfolding ptest_and_check
  ptest_and_check-flat addr code w m off h = elim (Bool-cases m.paging.tcr_p) [
    | inl large ↦ rw (ptest-off (addr / 2 ^ 12) m.s code w m off, large, large_joined addr h) refl
    | inr small ↦ rw (ptest-off (addr / 2 ^ 12) m.s code w m off, small, page_joined addr h) refl
  ]

  -- The MMU that memory access runs on.
  abbrev pub mc68040_mmu : Mmu Io
  mc68040_mmu = record { ptest_and_check = ptest_and_check devices; flat = ptest_and_check-flat }
