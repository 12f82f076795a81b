-- ===== src/Status/Restored.antt =====
-- The status register written and read again, and the stack pointers of the modes.
use newmacemu.Common.{
  ℕ, ◌+◌, ◌*◌, ◌/◌, ◌%◌, ◌^◌, ◌<◌, ◌≡◌, ap, ◌∙◌, arith, Bool, bit, to_num, bit_or, ◌==◌,
}
use newmacemu.Ccr.{get_ccr, get_ccr-set_ccr, get_ccr-lt}
use native.Mathlib.Nat.{mod-lt}
use newmacemu.Common.Mask.{bit_and-mod, bit_or-add, bit_or_comm}
use newmacemu.Machine.{Machine}
use newmacemu.Status.{get_sr, set_sr, save_sp, load_sp}

-- A field put above smaller ones.
above :
    (k q r : ℕ) (n : ℕ)
    → r < 2 ^ k
    → q * 2 ^ k < 2 ^ n
    → r < 2 ^ n
    → bit_or r (q * 2 ^ k) ≡ q * 2 ^ k + r
above k q r n h p s = bit_or_comm n r (q * 2 ^ k) s p ∙ bit_or-add k q r h

put_together :
    (c i m s t : ℕ)
    → c < 2 ^ 8
    → i < 2 ^ 3
    → m < 2
    → s < 2
    → t < 4
    → bit_or (bit_or (bit_or (bit_or c (i * 2 ^ 8)) (m * 2 ^ 12)) (s * 2 ^ 13)) (t * 2 ^ 14)
      ≡ t * 2 ^ 14 + s * 2 ^ 13 + m * 2 ^ 12 + i * 2 ^ 8 + c
put_together c i m s t hc hi hm hs ht =
    let x1 : ℕ = i * 2 ^ 8 + c in
    let x2 : ℕ = m * 2 ^ 12 + x1 in
    let x3 : ℕ = s * 2 ^ 13 + x2 in
    rw
      (
        above 8 i c 16 hc (omega arith) (omega arith),
        above 12 m x1 16 (omega arith) (omega arith) (omega arith),
        above 13 s x2 16 (omega arith) (omega arith) (omega arith),
        above 14 t x3 16 (omega arith) (omega arith) (omega arith),
      )
      (omega arith)

bit-num : (v k : ℕ) → to_num (bit v k) ≡ v / 2 ^ k % 2
bit-num v k = ground arith

flag : (b : Bool) → to_num b < 2
flag b = ground arith

told : (b : Bool) → (to_num b == 1) ≡ b
told b = ground arith

module _ {Io : Type 0} where
  -- A 16-bit status register reads as it was written, but for the bits 5 to 7 and 11, which read as zero.
  pub get_sr-set_sr :
      (v : ℕ) (m : Machine Io)
      → v < 2 ^ 16
      → get_sr (set_sr v m) ≡ v / 2 ^ 12 * 2 ^ 12 + v / 2 ^ 8 % 8 * 2 ^ 8 + v % 32
  unfolding get_sr set_sr save_sp load_sp
  get_sr-set_sr v m h =
      let flags : v % 2 ^ 8 % 32 ≡ v % 32 = omega arith in
      rw
        (
          get_ccr-set_ccr (v % 2 ^ 8),
          flags,
          bit_and-mod 3 (v / 2 ^ 8),
          bit-num v 12,
          bit-num v 13,
          bit_and-mod 2 (v / 2 ^ 14),
          put_together (v % 32) (v / 2 ^ 8 % 2 ^ 3) (v / 2 ^ 12 % 2) (v / 2 ^ 13 % 2)
              (v / 2 ^ 14 % 2 ^ 2) (omega arith) (omega arith) (omega arith) (omega arith)
              (omega arith),
        )
        (omega arith)

  pub get_sr_lem :
      (m : Machine Io)
      → m.control.i < 8
      → m.t < 4
      → get_sr m
        ≡ m.t * 2 ^ 14
          + to_num m.s * 2 ^ 13
          + to_num m.control.m * 2 ^ 12
          + m.control.i * 2 ^ 8
          + get_ccr m.ccr
  unfolding get_sr
  get_sr_lem m hi ht =
      let hc : get_ccr m.ccr < 32 = get_ccr-lt m.ccr in
      let hm : to_num m.control.m < 2 = flag m.control.m in
      let hs : to_num m.s < 2 = flag m.s in
      rw
        (put_together (get_ccr m.ccr) m.control.i (to_num m.control.m) (to_num m.s) m.t
          (omega arith) hi hm hs ht)
        (omega arith)

  -- The modes and the status register come back if the register of one machine is written to another.
  pub set_sr-get_sr :
      (m x : Machine Io)
      → m.control.i < 8
      → m.t < 4
      → (get_sr (set_sr (get_sr m) x) ≡ get_sr m)
        × ((set_sr (get_sr m) x).s ≡ m.s)
        × ((set_sr (get_sr m) x).control.m ≡ m.control.m)
  unfolding set_sr save_sp load_sp
  set_sr-get_sr m x hi ht =
      let whole = get_sr_lem m hi ht in
      let hc : get_ccr m.ccr < 32 = get_ccr-lt m.ccr in
      let hm : to_num m.control.m < 2 = flag m.control.m in
      let hs : to_num m.s < 2 = flag m.s in
      let small : get_sr m < 2 ^ 16 = omega arith in
      let s_bit : get_sr m / 2 ^ 13 % 2 ≡ to_num m.s = omega arith in
      let m_bit : get_sr m / 2 ^ 12 % 2 ≡ to_num m.control.m = omega arith in
      (
        get_sr-set_sr (get_sr m) x small ∙ omega arith,
        ap (λ (t : ℕ). t == 1) s_bit ∙ told m.s,
        ap (λ (t : ℕ). t == 1) m_bit ∙ told m.control.m,
      )

  pub get_sr-lt : (m : Machine Io) → get_sr m < 2 ^ 16
  unfolding get_sr
  get_sr-lt m = mod-lt (merged m) (omega arith)
    where
      merged : Machine Io → ℕ
      merged m =
          bit_or
            (bit_or
              (bit_or (bit_or (get_ccr m.ccr) (m.control.i * 2 ^ 8)) (to_num m.control.m * 2 ^ 12))
              (to_num m.s * 2 ^ 13))
            (m.t * 2 ^ 14)
