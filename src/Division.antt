-- ===== src/Division.antt =====
-- src/cpu/arithmetic.cc, its third part: DIVU_ and DIVS_. A signed operand is its bit pattern.
pub mod Unsigned
use newmacemu.Common.{
  ℕ, suc, ◌+◌, ◌-◌, ◌*◌, ◌/◌, ◌%◌, ◌^◌, Bool, true, false, not, ◌&&◌, ltb, leb, ◌==◌, if◌then◌else◌,
  Size, byte, word, long, wrap, modulus, signed, fits, top,
}
use newmacemu.Common.Int.{ℤ, pos, negsuc, pos_part, neg_part, sub_ℕ}
use newmacemu.Ccr.{Ccr, Alu, test}
use newmacemu.Product.{pattern_of, is_below_zero}

-- What a division ends with: its flags, quotient and remainder, the exception of DIV0_ERROR, or the
-- 64-bit quotient that C++ leaves undefined.
pub data Divided : Type 0 where
  divided : Ccr → ℕ → ℕ → Divided
  div0_error overflow_undefined : Divided

abbrev pub magnitude : ℤ → ℕ
magnitude v = pos_part v + neg_part v

abbrev minus : ℕ → ℤ
minus n = sub_ℕ 0 n

-- `a / b` and `a % b` on signed operands: toward zero, and with the sign of a.
abbrev pub quotient : ℤ → ℤ → ℤ
quotient (pos n) (pos k) = pos (n / k)
quotient (pos n) (negsuc k) = minus (n / suc k)
quotient (negsuc n) (pos k) = minus (suc n / k)
quotient (negsuc n) (negsuc k) = pos (suc n / suc k)

abbrev pub remainder : ℤ → ℤ → ℤ
remainder (pos n) b = pos (n % magnitude b)
remainder (negsuc n) b = minus (suc n % magnitude b)

-- An int64_t from its pattern.
abbrev pub signed64 : ℕ → ℤ
signed64 v = if leb (2 ^ 63) v then negsuc (2 ^ 64 - v - 1) else pos v

-- V of a quotient, with C cleared, before TEST_.
abbrev pub overflowing : Ccr → Bool → Ccr
overflowing f overflow = record f { v = overflow; c = false }

unfoldable pub divu_ll : Ccr → ℕ → ℕ → Divided
unfolding test
divu_ll f a b =
    if b == 0
    then div0_error
    else divided (test long (a / b) (overflowing f (not (a / b / 2 ^ 32 == 0)))) (a / b % 2 ^ 32)
        (a % b)

-- INT64_MIN / -1 has no value in C++.
unfoldable pub divs_ll : Ccr → ℕ → ℕ → Divided
unfolding test
divs_ll f a b =
    if b == 0
    then div0_error
    else if a == 2 ^ 63 && b == 0xffffffff
    then overflow_undefined
    else (let q : ℤ = quotient (signed64 a) (signed long b) in
        let r : ℤ = remainder (signed64 a) (signed long b) in
        divided (test long (pattern_of 64 q) (overflowing f (not (fits long q)))) (pattern_of 32 q)
          (pattern_of 32 r))

unfoldable pub divu_l : Ccr → ℕ → ℕ → Divided
unfolding test
divu_l f a b =
    if b == 0 then div0_error else divided (test long (a / b) (overflowing f false)) (a / b) (a % b)

-- The quotient 2 ^ 31 is answered with V alone, C left as it was.
unfoldable pub divs_l : Ccr → ℕ → ℕ → Divided
unfolding test
divs_l f a b =
    if b == 0
    then div0_error
    else if a == 0x80000000 && b == 0xffffffff
    then divided (record f { v = true }) 0 0
    else (let q : ℤ = quotient (signed long a) (signed long b) in
        let r : ℤ = remainder (signed long a) (signed long b) in
        divided (test long (pattern_of 32 q) (overflowing f false)) (pattern_of 32 q)
          (pattern_of 32 r))

unfoldable pub divu_w : Ccr → ℕ → ℕ → Divided
unfolding test
divu_w f a b =
    if b == 0
    then div0_error
    else divided (test word (a / b) (overflowing f (not (a / b / 2 ^ 16 == 0)))) (a / b % 2 ^ 16)
        (a % b)

unfoldable pub divs_w : Ccr → ℕ → ℕ → Divided
unfolding test
divs_w f a b =
    if b == 0
    then div0_error
    else if a == 0x80000000 && b == 0xffff
    then divided (record f { v = true }) 0 0
    else (let q : ℤ = quotient (signed long a) (signed word b) in
        let r : ℤ = remainder (signed long a) (signed word b) in
        divided (test word (pattern_of 32 q) (overflowing f (not (fits word q)))) (pattern_of 16 q)
          (pattern_of 16 r))
