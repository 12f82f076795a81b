-- ===== src/Arithmetic/Extended.antt =====
-- ADDX_, SUBX_ and NEGX_: what the addition of X to the second operand keeps and what it loses, and
-- the sums of two longs that the instructions are there for.
use newmacemu.Common.{
  ℕ, ◌+◌, ◌-◌, ◌*◌, ◌%◌, ◌^◌, ◌<◌, ◌≡◌, Bool, true, false, not, ◌&&◌, arith, ◌∙◌, ltb, leb, ◌==◌,
  to_num, if◌then◌else◌, Size, byte, word, long, wrap, top, modulus, signed, fits, refl,
}
use mathlib.Core.Path.{ap₂}
use newmacemu.Common.Int.{ℤ, pos, ◌+ℤ◌, ◌-ℤ◌}
use newmacemu.Ccr.{Ccr, Alu}
use newmacemu.Arithmetic.{add, sub, addx, subx, negx}
use newmacemu.Arithmetic.Sum.{IsSum, add-IsSum}
use newmacemu.Arithmetic.Difference.{IsDifference, sub-IsDifference}

-- The operand that is handed on.
abbrev operand : Size → ℕ → Bool → ℕ
operand s b x = wrap s (b + to_num x)

-- The exact sum of both operands and X.
abbrev pub extended_sum : Size → ℕ → ℕ → Bool → ℤ
extended_sum s a b x = signed s a +ℤ signed s b +ℤ pos (to_num x)

-- The value takes X in; the carry does too, unless the second operand is all ones, when no carry is
-- seen; the overflow does too, unless it is the greatest positive value, when the flag is inverted;
-- Z can only be cleared.
pub record IsExtendedSum (s : Size) (f : Ccr) (a b : ℕ) (x : Bool) (r : Alu) : Type 0 where
  pub value : r.value ≡ (a + b + to_num x) % modulus s
  pub carry : r.ccr.c ≡ (not (x && (b == modulus s - 1)) && leb (modulus s) (a + b + to_num x))
  pub extend : r.ccr.x ≡ r.ccr.c
  pub overflow : r.ccr.v ≡ (
      if x && (b == 2 ^ top s - 1)
      then fits s (extended_sum s a b x)
      else not (fits s (extended_sum s a b x)))
  pub zero : r.ccr.z ≡ ((r.value == 0) && f.z)

-- How the fields of the sum with the operand read for b and X.
value_operand :
    (s : Size) (a b : ℕ) (x : Bool)
    → a < modulus s
    → b < modulus s
    → (a + operand s b x) % modulus s ≡ (a + b + to_num x) % modulus s
value_operand byte a b true p q = ground arith
value_operand byte a b false p q = ground arith
value_operand word a b true p q = ground arith
value_operand word a b false p q = ground arith
value_operand long a b true p q = ground arith
value_operand long a b false p q = ground arith

carry_operand :
    (s : Size) (a b : ℕ) (x : Bool)
    → a < modulus s
    → b < modulus s
    → leb (modulus s) (a + operand s b x)
      ≡ (not (x && (b == modulus s - 1)) && leb (modulus s) (a + b + to_num x))
carry_operand byte a b true p q = ground arith
carry_operand byte a b false p q = ground arith
carry_operand word a b true p q = ground arith
carry_operand word a b false p q = ground arith
carry_operand long a b true p q = ground arith
carry_operand long a b false p q = ground arith

overflow_operand :
    (s : Size) (a b : ℕ) (x : Bool)
    → a < modulus s
    → b < modulus s
    → not (fits s (signed s a +ℤ signed s (operand s b x))) ≡ (
        if x && (b == 2 ^ top s - 1)
        then fits s (extended_sum s a b x)
        else not (fits s (extended_sum s a b x)))
unfolding ◌+ℤ◌
overflow_operand byte a b true p q = ground arith
overflow_operand byte a b false p q = ground arith
overflow_operand word a b true p q = ground arith
overflow_operand word a b false p q = ground arith
overflow_operand long a b true p q = ground arith
overflow_operand long a b false p q = ground arith

operand-lt : (s : Size) (b : ℕ) (x : Bool) → operand s b x < modulus s
operand-lt byte b x = omega arith
operand-lt word b x = omega arith
operand-lt long b x = omega arith

zero_kept : (old : Bool) (n : ℕ) → (if n == 0 then old else false) ≡ ((n == 0) && old)
zero_kept old n = ground arith

-- For two operands of a size and any X, ADDX_ gives the sum with X modulo the size; C and X are the
-- carry of the sum, but false if X is set and the second operand is all ones; V is signed overflow of
-- the sum, but its negation if X is set and the second operand is the greatest positive value; Z
-- keeps its old value on a zero result and is cleared otherwise.
pub addx-IsExtendedSum :
    (s : Size) (f : Ccr) (a b : ℕ) (x : Bool)
    → a < modulus s
    → b < modulus s
    → IsExtendedSum s f a b x (addx s f a b x)
unfolding addx
addx-IsExtendedSum s f a b x p q =
    let sum : IsSum s a (operand s b x) (add s f a (operand s b x)) =
      add-IsSum s f a (operand s b x) p (operand-lt s b x) in
    record {
      value = sum.value ∙ value_operand s a b x p q;
      carry = sum.carry ∙ carry_operand s a b x p q;
      extend = sum.extend;
      overflow = sum.overflow ∙ overflow_operand s a b x p q;
      zero = zero_kept f.z _;
    }

-- The exact difference of both operands and X.
abbrev pub extended_difference : Size → ℕ → ℕ → Bool → ℤ
extended_difference s a b x = signed s a -ℤ signed s b -ℤ pos (to_num x)

-- As for the sum: the borrow is lost at a second operand of all ones, the overflow is inverted at the
-- greatest positive one.
pub record IsExtendedDifference (s : Size) (f : Ccr) (a b : ℕ) (x : Bool) (r : Alu) : Type 0 where
  pub value : r.value ≡ (a + 2 * modulus s - b - to_num x) % modulus s
  pub carry : r.ccr.c ≡ (not (x && (b == modulus s - 1)) && ltb a (b + to_num x))
  pub extend : r.ccr.x ≡ r.ccr.c
  pub overflow : r.ccr.v ≡ (
      if x && (b == 2 ^ top s - 1)
      then fits s (extended_difference s a b x)
      else not (fits s (extended_difference s a b x)))
  pub zero : r.ccr.z ≡ ((r.value == 0) && f.z)

value_rest :
    (s : Size) (a b : ℕ) (x : Bool)
    → a < modulus s
    → b < modulus s
    → (a + modulus s - operand s b x) % modulus s ≡ (a + 2 * modulus s - b - to_num x) % modulus s
value_rest byte a b true p q = ground arith
value_rest byte a b false p q = ground arith
value_rest word a b true p q = ground arith
value_rest word a b false p q = ground arith
value_rest long a b true p q = ground arith
value_rest long a b false p q = ground arith

borrow_rest :
    (s : Size) (a b : ℕ) (x : Bool)
    → a < modulus s
    → b < modulus s
    → ltb a (operand s b x) ≡ (not (x && (b == modulus s - 1)) && ltb a (b + to_num x))
borrow_rest byte a b true p q = ground arith
borrow_rest byte a b false p q = ground arith
borrow_rest word a b true p q = ground arith
borrow_rest word a b false p q = ground arith
borrow_rest long a b true p q = ground arith
borrow_rest long a b false p q = ground arith

overflow_rest :
    (s : Size) (a b : ℕ) (x : Bool)
    → a < modulus s
    → b < modulus s
    → not (fits s (signed s a -ℤ signed s (operand s b x))) ≡ (
        if x && (b == 2 ^ top s - 1)
        then fits s (extended_difference s a b x)
        else not (fits s (extended_difference s a b x)))
unfolding ◌-ℤ◌
overflow_rest byte a b true p q = ground arith
overflow_rest byte a b false p q = ground arith
overflow_rest word a b true p q = ground arith
overflow_rest word a b false p q = ground arith
overflow_rest long a b true p q = ground arith
overflow_rest long a b false p q = ground arith

-- For two operands of a size and any X, SUBX_ gives the difference less X modulo the size; C and X are
-- the borrow, but false if X is set and the second operand is all ones; V is signed overflow, but its
-- negation if X is set and the second operand is the greatest positive value; Z keeps its old value on
-- a zero result and is cleared otherwise.
pub subx-IsExtendedDifference :
    (s : Size) (f : Ccr) (a b : ℕ) (x : Bool)
    → a < modulus s
    → b < modulus s
    → IsExtendedDifference s f a b x (subx s f a b x)
unfolding subx
subx-IsExtendedDifference s f a b x p q =
    let rest : IsDifference s a (operand s b x) (sub s f a (operand s b x)) =
      sub-IsDifference s f a (operand s b x) p (operand-lt s b x) in
    record {
      value = rest.value ∙ value_rest s a b x p q;
      carry = rest.carry ∙ borrow_rest s a b x p q;
      extend = rest.extend;
      overflow = rest.overflow ∙ overflow_rest s a b x p q;
      zero = zero_kept f.z _;
    }

-- A sum of two longs each: ADD_L of the low halves, then ADDX_L of the high halves.
abbrev pub add_pair : Ccr → ℕ → ℕ → ℕ → ℕ → Alu × Alu
add_pair f ah al bh bl = let low = add long f al bl in (addx long low.ccr ah bh low.ccr.x, low)

joined :
    (ah al bh bl : ℕ) (x : Bool)
    → ah < 2 ^ 32
    → al < 2 ^ 32
    → bh < 2 ^ 32
    → bl < 2 ^ 32
    → x ≡ leb (2 ^ 32) (al + bl)
    → (ah + bh + to_num x) % 2 ^ 32 * 2 ^ 32 + (al + bl) % 2 ^ 32
      ≡ (ah * 2 ^ 32 + al + (bh * 2 ^ 32 + bl)) % 2 ^ 64
joined ah al bh bl x p q r t e = ground arith

-- For halves below 2 ^ 32, ADD_L of the low halves and then ADDX_L of the high halves with the X that
-- it left give the two halves of the sum modulo 2 ^ 64.
pub add_pair_value :
    (f : Ccr) (ah al bh bl : ℕ)
    → ah < 2 ^ 32
    → al < 2 ^ 32
    → bh < 2 ^ 32
    → bl < 2 ^ 32
    → (add_pair f ah al bh bl).0.value * 2 ^ 32 + (add_pair f ah al bh bl).1.value
      ≡ (ah * 2 ^ 32 + al + (bh * 2 ^ 32 + bl)) % 2 ^ 64
add_pair_value f ah al bh bl p q r t =
    let low = add long f al bl in
    let sum : IsSum long al bl low = add-IsSum long f al bl q t in
    let high = addx-IsExtendedSum long low.ccr ah bh low.ccr.x p r in
    ap₂ (λ h l. h * 2 ^ 32 + l) high.value sum.value
    ∙ joined ah al bh bl low.ccr.x p q r t (sum.extend ∙ sum.carry)

-- NEGX_ does what SUBX_ does from zero, but for Z, which it sets from the value alone.
pub negx-subx :
    (s : Size) (f : Ccr) (v : ℕ) (x : Bool)
    → let r = subx s f 0 v x in
      negx s f v x ≡ record r { ccr = record (r.ccr) { z = r.value == 0 } }
unfolding negx subx sub
negx-subx s f v x = refl
