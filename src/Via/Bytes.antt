-- ===== src/Via/Bytes.antt =====
-- Bitsets and bytes.
use newmacemu.Common.{
  ℕ, zero, suc, ◌+◌, ◌*◌, ◌/◌, ◌%◌, ◌^◌, ◌<◌, ◌≡◌, refl, ap, ap₂, sym, ◌∙◌, arith, Bool, true,
  false, ◌||◌, bit_or, bit, to_num, ltb, ◌==◌, ==_iff, if◌then◌else◌, Bool-cases, inl, inr,
}
use native.Mathlib.Nat.{pow-succ', one-le-pow}
use newmacemu.Common.Bits.{bit-bit_or, bit-suc}
use newmacemu.Common.Mask.{bit_or-add, double_mod}
use newmacemu.Common.Select.{bit-pow}
use newmacemu.Common.Table.{passes-each}
use newmacemu.Via.{to_ulong}
use newmacemu.Via.Registers.{acr_byte, set_acr, pcr_byte, set_pcr}

pub to_ulong-lt : (n : ℕ) (f : ℕ → Bool) → to_ulong n f < 2 ^ n
to_ulong-lt zero f = omega arith
to_ulong-lt (suc n) f = elim (Bool-cases (f n)) [
  | inl on ↦ rw on (omega (arith, pow-succ' 2 n, to_ulong-lt n f))
  | inr off ↦ rw off (omega (arith, pow-succ' 2 n, to_ulong-lt n f))
]

-- Bitsets with the same bits are the same number.
pub to_ulong_ext :
    (n : ℕ) (f g : ℕ → Bool) → ((i : ℕ) → i < n → f i ≡ g i) → to_ulong n f ≡ to_ulong n g
to_ulong_ext zero f g same = refl
to_ulong_ext (suc n) f g same =
    ap₂ (λ (x : ℕ) (b : Bool). x + to_num b * 2 ^ n)
      (to_ulong_ext n f g λ i h. same i (omega arith)) (same n (omega arith))

lowest_bits : (n v : ℕ) → v % 2 ^ suc n ≡ v % 2 ^ n + to_num (bit v n) * 2 ^ n
lowest_bits zero v = ground arith
lowest_bits (suc n) v =
    let above : v % 2 ^ suc (suc n) ≡ 2 * (v / 2 % 2 ^ suc n) + v % 2 =
      ap (λ (t : ℕ). v % t) (pow-succ' 2 (suc n))
      ∙ double_mod (2 ^ suc n) v (one-le-pow (suc n) 2 (omega arith)) in
    let here : v % 2 ^ suc n ≡ 2 * (v / 2 % 2 ^ n) + v % 2 =
      ap (λ (t : ℕ). v % t) (pow-succ' 2 n) ∙ double_mod (2 ^ n) v (one-le-pow n 2 (omega arith)) in
    let next : to_num (bit v (suc n)) * 2 ^ suc n ≡ 2 * (to_num (bit (v / 2) n) * 2 ^ n) =
      rw (bit-suc v n, pow-succ' 2 n) (twice (bit (v / 2) n) (2 ^ n)) in
    omega (arith, above, here, next, lowest_bits n (v / 2))
  where
    twice : (b : Bool) (p : ℕ) → to_num b * (2 * p) ≡ 2 * (to_num b * p)
    twice b p = ground arith

-- The bits of a number make up the number.
pub to_ulong-bit : (n v : ℕ) → to_ulong n (bit v) ≡ v % 2 ^ n
to_ulong-bit zero v = omega arith
to_ulong-bit (suc n) v =
    ap (λ (x : ℕ). x + to_num (bit v n) * 2 ^ n) (to_ulong-bit n v) ∙ sym (lowest_bits n v)

single : (n i : ℕ) (b : Bool) → bit (to_num b * 2 ^ n) i ≡ (if i == n then b else false)
single n i true = ap (λ (t : ℕ). bit t i) (omega arith) ∙ bit-pow n i ∙ ground arith
single n i false = ground arith

-- The bits of the number are the bits of the bitset.
pub bit-to_ulong :
    (n i : ℕ) (f : ℕ → Bool) → bit (to_ulong n f) i ≡ (if ltb i n then f i else false)
bit-to_ulong zero i f = ground arith
bit-to_ulong (suc n) i f =
    let sum : to_ulong (suc n) f ≡ bit_or (to_num (f n) * 2 ^ n) (to_ulong n f) =
      omega (arith, bit_or-add n (to_num (f n)) (to_ulong n f) (to_ulong-lt n f)) in
    ap (λ (t : ℕ). bit t i) sum
    ∙ bit-bit_or i (to_num (f n) * 2 ^ n) (to_ulong n f)
    ∙ ap₂ ◌||◌ (single n i (f n)) (bit-to_ulong n i f)
    ∙ either
  where
    either :
        ((if i == n then f n else false) || (if ltb i n then f i else false))
        ≡ (if ltb i (suc n) then f i else false)
    either = ground arith

pub acr_byte-set_acr : (v : ℕ) → v < 256 → acr_byte (set_acr v) ≡ v
unfolding acr_byte set_acr
acr_byte-set_acr v h =
    (==_iff (acr_byte (set_acr v)) v).0 (passes-each (λ b. acr_byte (set_acr b) == b) 256 v h refl)

pub pcr_byte-set_pcr : (v : ℕ) → v < 256 → pcr_byte (set_pcr v) ≡ v
unfolding pcr_byte set_pcr
pcr_byte-set_pcr v h =
    (==_iff (pcr_byte (set_pcr v)) v).0 (passes-each (λ b. pcr_byte (set_pcr b) == b) 256 v h refl)
