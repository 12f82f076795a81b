-- ===== src/Via/Rbv.antt =====
-- src/chip/via.cc and include/chip/rbv.hpp: RBV, the chip that stands in for VIA2 on some boards.
use newmacemu.Common.{
  ℕ, ◌+◌, ◌*◌, ◌%◌, ◌^◌, ◌<◌, ◌≡◌, ◌⊎◌, refl, sym, subst, ap, ◌∙◌, arith, Bool, true, false, ◌&&◌,
  ◌||◌, bit_or, bit_and, bit, to_num, ltb, ◌==◌, ==_iff, if◌then◌else◌, Bool-cases, inl, inr,
  Option, none, some,
}
use newmacemu.Common.Mask.{bit_or-add}
use newmacemu.Common.Table.{passes-each}
use newmacemu.Via.{to_ulong, any}
use newmacemu.Via.Bytes.{to_ulong_ext, to_ulong-lt}

pub record Rbv : Type 0 where
  pub rbuf_b : ℕ
  pub r_exp : ℕ
  pub r_sifr : ℕ
  pub r_ifr : ℕ → Bool
  pub r_mon_p : ℕ
  pub r_chp_t : ℕ
  pub r_sier : ℕ
  pub r_ier : ℕ → Bool

-- RBV::read(n); `none` is a thrown BusError.
unfoldable pub rbv_read : ℕ → Rbv → Option ℕ
rbv_read n r =
    if n == 0
    then some r.rbuf_b
    else if n == 1
    then some r.r_exp
    else if n == 2
    then some r.r_sifr
    else if n == 3
    then some (bit_or (bit_and (to_ulong 5 r.r_ifr) 0x7f) (to_num (any 5 r.r_ifr) * 2 ^ 7))
    else if n == 0x10
    then some r.r_mon_p
    else if n == 0x11
    then some r.r_chp_t
    else if n == 0x12
    then some r.r_sier
    else if n == 0x13
    then some (bit_or 0x80 (to_ulong 5 r.r_ier))
    else none

-- RBV::write(n, v).
unfoldable pub rbv_write : ℕ → ℕ → Rbv → Option Rbv
rbv_write n v r =
    if n == 0
    then some (record r { rbuf_b = v })
    else if n == 1
    then some (record r { r_exp = v })
    else if n == 2
    then some (record r { r_sifr = v })
    else if n == 3
    then some (record r { r_ifr = bit v })
    else if n == 0x10
    then some (record r { r_mon_p = v })
    else if n == 0x11
    then some (record r { r_chp_t = v })
    else if n == 0x12
    then some (record r { r_sier = v })
    else if n == 0x13
    then some (record r { r_ier = λ i. if ltb i 5 && bit v i then bit v 7 else r.r_ier i })
    else none

-- What register n reads as after a byte v is written to it: the byte, but for the flags of interrupts,
-- five with their summary in bit 7, and the enables, of which the byte sets or clears those of its bits.
abbrev pub seen : ℕ → ℕ → Rbv → ℕ
seen n v r =
    if n == 3
    then v % 32 + (if v % 32 == 0 then 0 else 128)
    else if n == 0x13
    then 128 + to_ulong 5 (λ i. if bit v i then bit v 7 else r.r_ier i)
    else v

-- Is it the number of a register?
abbrev pub is_register : ℕ → Bool
is_register n = ltb n 4 || ltb 0xf n && ltb n 0x14

ifr_byte :
    (v : ℕ)
    → v < 256
    → bit_or (bit_and (to_ulong 5 (bit v)) 0x7f) (to_num (any 5 (bit v)) * 2 ^ 7)
      ≡ v % 32 + (if v % 32 == 0 then 0 else 128)
ifr_byte v h =
    (==_iff (flags v) (v % 32 + (if v % 32 == 0 then 0 else 128))).0
      (passes-each (λ b. flags b == b % 32 + (if b % 32 == 0 then 0 else 128)) 256 v h refl)
  where
    flags : ℕ → ℕ
    flags b = bit_or (bit_and (to_ulong 5 (bit b)) 0x7f) (to_num (any 5 (bit b)) * 2 ^ 7)

enabled_by :
    (i v : ℕ) (old : Bool)
    → i < 5
    → (if ltb i 5 && bit v i then bit v 7 else old) ≡ (if bit v i then bit v 7 else old)
enabled_by i v old h = ground arith

ier_byte :
    (v : ℕ) (old : ℕ → Bool)
    → bit_or 0x80 (to_ulong 5 (λ i. if ltb i 5 && bit v i then bit v 7 else old i))
      ≡ 128 + to_ulong 5 (λ i. if bit v i then bit v 7 else old i)
ier_byte v old =
    let f = λ (i : ℕ). if bit v i then bit v 7 else old i in
    ap (bit_or 0x80) (
      to_ulong_ext 5 (λ i. if ltb i 5 && bit v i then bit v 7 else old i) f
        λ i h. enabled_by i v (old i) h)
    ∙ bit_or-add 7 1 (to_ulong 5 f) (omega (arith, to_ulong-lt 5 f))

-- The registers' numbers.
data IsRegister : ℕ → Type 0 where
  by_rbuf_b : IsRegister 0
  by_exp : IsRegister 1
  by_sifr : IsRegister 2
  by_ifr : IsRegister 3
  by_mon_p : IsRegister 16
  by_chp_t : IsRegister 17
  by_sier : IsRegister 18
  by_ier : IsRegister 19

unequal : (n k : ℕ) → is_register n ≡ false → is_register k ≡ true → (n == k) ≡ false
unequal n k off on = elim (Bool-cases (n == k)) [
  | inr other ↦ other
  | inl same ↦ ground (arith, ap is_register ((==_iff n k).0 same))
]

refused :
    (n : ℕ)
    → is_register n ≡ false
    → (v : ℕ) (r : Rbv) → (rbv_write n v r ≡ none) × (rbv_read n r ≡ none)
unfolding rbv_read rbv_write
refused n off v r =
    let no = λ (k : ℕ) (h : is_register k ≡ true). unequal n k off h in
    rw
      (
        no 0 refl,
        no 1 refl,
        no 2 refl,
        no 3 refl,
        no 0x10 refl,
        no 0x11 refl,
        no 0x12 refl,
        no 0x13 refl,
      )
      (refl, refl)

registered :
    (n v : ℕ) (r : Rbv)
    → v < 256
    → IsRegister n
    → (after : Rbv) × (rbv_write n v r ≡ some after) × (rbv_read n after ≡ some (seen n v r))
unfolding rbv_read rbv_write
registered _ v r h by_ifr = (_, refl, ap some (ifr_byte v h))
registered _ v r h by_ier = (_, refl, ap some (ier_byte v r.r_ier))
registered _ v r h by_rbuf_b = (_, refl, refl)
registered _ v r h by_exp = (_, refl, refl)
registered _ v r h by_sifr = (_, refl, refl)
registered _ v r h by_mon_p = (_, refl, refl)
registered _ v r h by_chp_t = (_, refl, refl)
registered _ v r h by_sier = (_, refl, refl)

none_left :
    (n : ℕ)
    → is_register n ≡ true
    → (n == 0) ≡ false
    → (n == 1) ≡ false
    → (n == 2) ≡ false
    → (n == 3) ≡ false
    → (n == 16) ≡ false
    → (n == 17) ≡ false
    → (n == 18) ≡ false
    → (n == 19) ≡ false
    → ⊥
none_left n on no0 no1 no2 no3 no16 no17 no18 no19 = ground arith

-- The number of a register is one of the eight.
found : (n : ℕ) → is_register n ≡ true → IsRegister n
found n on = elim (Bool-cases (n == 0)) [
  | inl same ↦ subst IsRegister (sym ((==_iff n 0).0 same)) by_rbuf_b
  | inr no0 ↦ elim (Bool-cases (n == 1)) [
    | inl same ↦ subst IsRegister (sym ((==_iff n 1).0 same)) by_exp
    | inr no1 ↦ elim (Bool-cases (n == 2)) [
      | inl same ↦ subst IsRegister (sym ((==_iff n 2).0 same)) by_sifr
      | inr no2 ↦ elim (Bool-cases (n == 3)) [
        | inl same ↦ subst IsRegister (sym ((==_iff n 3).0 same)) by_ifr
        | inr no3 ↦ elim (Bool-cases (n == 16)) [
          | inl same ↦ subst IsRegister (sym ((==_iff n 16).0 same)) by_mon_p
          | inr no16 ↦ elim (Bool-cases (n == 17)) [
            | inl same ↦ subst IsRegister (sym ((==_iff n 17).0 same)) by_chp_t
            | inr no17 ↦ elim (Bool-cases (n == 18)) [
              | inl same ↦ subst IsRegister (sym ((==_iff n 18).0 same)) by_sier
              | inr no18 ↦ elim (Bool-cases (n == 19)) [
                | inl same ↦ subst IsRegister (sym ((==_iff n 19).0 same)) by_ier
                | inr no19 ↦ absurd (none_left n on no0 no1 no2 no3 no16 no17 no18 no19)
              ]
            ]
          ]
        ]
      ]
    ]
  ]
]

-- A number from 4 to 15 or above 19 is a bus error for reads and writes; for any other, a byte that is
-- written ends normally, and a read then gives what `seen` says: the byte, but for the flags of
-- interrupts, five with their summary in bit 7, and the enables, of which the byte sets or clears those
-- of its bits by its top bit, with bit 7 set.
pub rbv_read-rbv_write :
    (n v : ℕ) (r : Rbv)
    → v < 256
    → ((is_register n ≡ false) × (rbv_write n v r ≡ none) × (rbv_read n r ≡ none))
      ⊎ ((is_register n ≡ true)
          × ((after : Rbv) × (rbv_write n v r ≡ some after)
              × (rbv_read n after ≡ some (seen n v r))))
rbv_read-rbv_write n v r h = elim (Bool-cases (is_register n)) [
  | inl on ↦ inr (on, registered n v r h (found n on))
  | inr off ↦ let none_both = refused n off v r in inl (off, none_both.0, none_both.1)
]
