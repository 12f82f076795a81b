-- ===== src/Division/Unsigned.antt =====
-- Quotients of unsigned operands.
use newmacemu.Common.{
  ℕ, ◌+◌, ◌*◌, ◌/◌, ◌%◌, ◌^◌, ◌<◌, ◌≤◌, ◌≡◌, refl, arith, true, false, Bool-cases, inl, inr, not,
  leb, ◌==◌, word, long,
}
use native.Mathlib.Nat.{
  mod-lt, mul-div_cancel, mul-mod_left, div-add-mod, div-eq_of_lt, le-div_iff_mul-le, one-le-pow,
}
use newmacemu.Ccr.{Ccr, test}
use newmacemu.Product.{mulu_ll}
use newmacemu.Division.{Divided, divided, overflowing, divu_ll, divu_w}

-- A division of a by b whose quotient has n bits: V says that the quotient needs more, and otherwise the
-- two results are the quotient and the remainder; the remainder is right in any case. C is cleared and
-- X kept.
pub record IsQuotient (n : ℕ) (f : Ccr) (a b : ℕ) (d : Divided) : Type 0 where
  pub ccr : Ccr
  pub quotient : ℕ
  pub remainder : ℕ
  pub returns : d ≡ divided ccr quotient remainder
  pub overflow : ccr.v ≡ leb (2 ^ n * b) a
  pub divides : ccr.v ≡ false → quotient * b + remainder ≡ a
  pub is_rest : (k : ℕ) × (k * b + remainder ≡ a) × (remainder < b)
  pub carry : ccr.c ≡ false
  pub extend : ccr.x ≡ f.x

whole : (a b : ℕ) → a / b * b + a % b ≡ a
whole a b = grind (arith, div-add-mod a b)

leb-le : (x y : ℕ) → leb x y ≡ true → x ≤ y
leb-le x y h = ground arith

leb-not : (x y : ℕ) → leb x y ≡ false → ¬ (x ≤ y)
leb-not x y h le = ground arith

not-le : (x y : ℕ) → ¬ (x ≤ y) → y < x
not-le x y h = omega arith

zero_high : (n q : ℕ) → not (q / 2 ^ n == 0) ≡ false → q / 2 ^ n ≡ 0
zero_high n q h = ground arith

-- `q >> n` is not zero just if the quotient needs more than n bits.
too_big : (n a b : ℕ) → 0 < b → not (a / b / 2 ^ n == 0) ≡ leb (2 ^ n * b) a
too_big n a b h =
    let pos : 0 < 2 ^ n = one-le-pow n 2 (omega arith) in
    elim (Bool-cases (leb (2 ^ n * b) a)) [
      | inl big ↦
          let le : 2 ^ n ≤ a / b = (le-div_iff_mul-le h).1 (leb-le (2 ^ n * b) a big) in
          let high : 1 ≤ a / b / 2 ^ n = (le-div_iff_mul-le pos).1 (omega arith) in
          rw big (ground arith)
      | inr small ↦
          let below : a / b < 2 ^ n =
            not-le (2 ^ n) (a / b) λ le. leb-not (2 ^ n * b) a small ((le-div_iff_mul-le h).0 le) in
          rw (small, div-eq_of_lt below) refl
    ]

-- DIVU_LL by a divisor above zero: V says that the quotient has more than 32 bits; otherwise quotient
-- times divisor and remainder make the dividend; the remainder is below the divisor; C is cleared and
-- X kept.
pub divu_ll-IsQuotient : (f : Ccr) (a b : ℕ) → 0 < b → IsQuotient 32 f a b (divu_ll f a b)
unfolding divu_ll test
divu_ll-IsQuotient f a b h =
    let nonzero : (b == 0) ≡ false = ground arith in
    record {
      ccr = test long (a / b) (overflowing f (not (a / b / 2 ^ 32 == 0)));
      quotient = a / b % 2 ^ 32;
      remainder = a % b;
      returns = rw nonzero refl;
      overflow = too_big 32 a b h;
      divides = λ narrow.
          let low : a / b / 2 ^ 32 ≡ 0 = zero_high 32 (a / b) narrow in
          let kept : a / b % 2 ^ 32 ≡ a / b = omega arith in rw kept (whole a b);
      is_rest = (a / b, whole a b, mod-lt a h);
      carry = refl;
      extend = refl;
    }

-- DIVU_LL of a product that MULU_LL gave, by its second factor above zero, gives the first factor and
-- no rest, with V and C cleared.
pub divu_ll-mulu_ll :
    (f g : Ccr) (a b : ℕ)
    → a < 2 ^ 32
    → 0 < b
    → divu_ll f (mulu_ll g a b).value b ≡ divided (test long a (overflowing f false)) a 0
unfolding divu_ll mulu_ll
divu_ll-mulu_ll f g a b small h =
    let nonzero : (b == 0) ≡ false = ground arith in
    let back : a * b / b ≡ a = mul-div_cancel a h in
    let rest : a * b % b ≡ 0 = mul-mod_left a b in
    let narrow : a / 2 ^ 32 ≡ 0 = omega arith in
    let same : a % 2 ^ 32 ≡ a = omega arith in rw (nonzero, back, rest, narrow, same) refl

-- DIVU_W by a divisor above zero: V says that the quotient has more than 16 bits; otherwise quotient
-- times divisor and remainder make the dividend; the remainder is below the divisor; C is cleared and
-- X kept.
divu_w-IsQuotient : (f : Ccr) (a b : ℕ) → 0 < b → IsQuotient 16 f a b (divu_w f a b)
unfolding divu_w test
divu_w-IsQuotient f a b h =
    let nonzero : (b == 0) ≡ false = ground arith in
    record {
      ccr = test word (a / b) (overflowing f (not (a / b / 2 ^ 16 == 0)));
      quotient = a / b % 2 ^ 16;
      remainder = a % b;
      returns = rw nonzero refl;
      overflow = too_big 16 a b h;
      divides = λ narrow.
          let low : a / b / 2 ^ 16 ≡ 0 = zero_high 16 (a / b) narrow in
          let kept : a / b % 2 ^ 16 ≡ a / b = omega arith in rw kept (whole a b);
      is_rest = (a / b, whole a b, mod-lt a h);
      carry = refl;
      extend = refl;
    }
