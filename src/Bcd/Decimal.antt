-- ===== src/Bcd/Decimal.antt =====
-- ABCD, SBCD and NBCD on digits: what they compute of the decimal values of their operands.
use newmacemu.Common.{
  ℕ, ◌+◌, ◌-◌, ◌*◌, ◌/◌, ◌%◌, ◌^◌, ◌<◌, ◌≤◌, ◌≡◌, refl, ◌∙◌, if◌then◌else◌, Bool, false, ◌&&◌,
  arith, to_num, leb, ltb, ◌==◌,
}
use newmacemu.Common.Mask.{bit_and-mod, bit_or-add}
use newmacemu.Ccr.{Ccr, Alu}
use newmacemu.Bcd.{bcd2bin, bin2bcd, abcd, sbcd, nbcd}

-- A byte of two decimal digits, and the number that they write.
abbrev pub IsDecimal : ℕ → Type 0
IsDecimal v = (v / 16 < 10) × (v % 16 < 10)

abbrev pub decimal : ℕ → ℕ
decimal v = v / 16 * 10 + v % 16

bcd2bin-eq : (v : ℕ) → IsDecimal v → bcd2bin v ≡ decimal v
unfolding bcd2bin
bcd2bin-eq v h = omega (arith, bit_and-mod 4 v)

bin2bcd-eq : (n : ℕ) → n < 100 → bin2bcd n ≡ n / 10 * 16 + n % 10
unfolding bin2bcd
bin2bcd-eq n h = ground (arith, bit_or-add 4 (n % 256 / 10) (n % 256 % 10))

pub decimal-bin2bcd : (n : ℕ) → n < 100 → IsDecimal (bin2bcd n) × (decimal (bin2bcd n) ≡ n)
decimal-bin2bcd n h = rw (bin2bcd-eq n h) (omega arith)

-- The result writes `n`; C and X are `carry`; Z is cleared by a result that is not zero; N and V are
-- left alone.
pub record IsDecimalResult (f : Ccr) (n : ℕ) (carry : Bool) (r : Alu) : Type 0 where
  pub digits : IsDecimal r.value
  pub value : decimal r.value ≡ n
  pub carry_out : r.ccr.c ≡ carry
  pub extend : r.ccr.x ≡ carry
  pub zero : r.ccr.z ≡ ((n == 0) && f.z)
  pub negative : r.ccr.n ≡ f.n
  pub overflow : r.ccr.v ≡ f.v

digits_of : (n : ℕ) → n < 100 → IsDecimal (bin2bcd n)
digits_of n h = (decimal-bin2bcd n h).0

number_of : (n : ℕ) → n < 100 → decimal (bin2bcd n) ≡ n
number_of n h = (decimal-bin2bcd n h).1

bin2bcd-wrap : (n : ℕ) → bin2bcd (n + 2 ^ 8) ≡ bin2bcd n
unfolding bin2bcd
bin2bcd-wrap n = let same : (n + 2 ^ 8) % 2 ^ 8 ≡ n % 2 ^ 8 = omega arith in rw same refl

to_num-le : (x : Bool) → to_num x ≤ 1
to_num-le x = ground arith

-- The difference of two numbers of two digits, with 100 added below zero, and when it is zero.
lifted_rest :
    (a b x : ℕ)
    → a < 100
    → b < 100
    → x ≤ 1
    → ((if ltb a (b + x) then a + 100 else a) + 2 ^ 8 - (b + x) ≡ (a + 200 - b - x) % 100 + 2 ^ 8)
      × (((if ltb a (b + x) then a + 100 else a) == b + x) ≡ ((a + 200 - b - x) % 100 == 0))
lifted_rest a b x h k l = (ground arith, ground arith)

module _ (f : Ccr) (a b : ℕ) (x : Bool) (p : IsDecimal a) (q : IsDecimal b) where
  -- For operands of two decimal digits, ABCD writes the digits of the decimal sum with X modulo 100, sets
  -- C and X to the decimal carry, clears Z on a nonzero result and keeps it otherwise, and keeps N and V.
  pub abcd-IsDecimalResult :
      IsDecimalResult f
        ((decimal a + decimal b + to_num x) % 100)
        (leb 100 (decimal a + decimal b + to_num x))
        (abcd f a b x)
  unfolding abcd
  abcd-IsDecimalResult =
      let n : ℕ = (decimal a + decimal b + to_num x) % 100 in
      rw (bcd2bin-eq a p, bcd2bin-eq b q) (ground (arith, digits_of n, number_of n))

  -- For operands of two decimal digits, do_sbcd writes the digits of its first operand less its second
  -- and X modulo 100, sets C and X to the borrow, clears Z on a nonzero result and keeps it otherwise,
  -- and keeps N and V.
  pub sbcd-IsDecimalResult :
      IsDecimalResult f
        ((decimal a + 200 - decimal b - to_num x) % 100)
        (ltb (decimal a) (decimal b + to_num x))
        (sbcd f a b x)
  unfolding sbcd
  sbcd-IsDecimalResult =
      let n : ℕ = (decimal a + 200 - decimal b - to_num x) % 100 in
      let borrow = ltb (decimal a) (decimal b + to_num x) in
      let lifted : ℕ = if borrow then decimal a + 100 else decimal a in
      let (rest, none_left) =
        lifted_rest (decimal a) (decimal b) (to_num x) (omega arith) (omega arith) (to_num-le x) in
      rw (bcd2bin-eq a p, bcd2bin-eq b q, rest, none_left, bin2bcd-wrap n)
        (ground (arith, digits_of n, number_of n))

-- For an operand of two decimal digits, NBCD writes the digits of zero less the operand and X modulo
-- 100, sets C and X to the borrow, clears Z on a nonzero result and keeps it otherwise, and keeps N
-- and V.
pub nbcd-IsDecimalResult :
    (f : Ccr) (a : ℕ) (x : Bool)
    → IsDecimal a
    → IsDecimalResult f
        ((200 - decimal a - to_num x) % 100)
        (ltb 0 (decimal a + to_num x))
        (nbcd f a x)
unfolding nbcd
nbcd-IsDecimalResult f a x p =
    let n : ℕ = (200 - decimal a - to_num x) % 100 in
    rw (bcd2bin-eq a p) (ground (arith, digits_of n, number_of n))

-- For operands of two decimal digits, do_sbcd of their do_abcd sum (both without X) and the second
-- operand writes the number of the first operand again.
pub sbcd-abcd :
    (f g : Ccr) (a b : ℕ)
    → IsDecimal a
    → IsDecimal b
    → decimal (sbcd g (abcd f a b false).value b false).value ≡ decimal a
sbcd-abcd f g a b p q =
    let sum = abcd-IsDecimalResult f a b false p q in
    let back = sbcd-IsDecimalResult g (abcd f a b false).value b false sum.digits q in
    back.value ∙ omega (arith, sum.value)
