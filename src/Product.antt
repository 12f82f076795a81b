-- ===== src/Product.antt =====
-- src/cpu/arithmetic.cc, its second part: MULU_ and MULS_. A signed operand is its bit pattern.
use newmacemu.Common.{
  ℕ, ◌-◌, ◌*◌, ◌/◌, ◌%◌, ◌^◌, Bool, true, false, not, leb, ◌==◌, word, long, signed, fits,
}
use newmacemu.Common.Int.{ℤ, pos, negsuc, ◌*ℤ◌}
use newmacemu.Ccr.{Ccr, Alu}

-- An integer as a pattern of b bits.
abbrev pub pattern_of : ℕ → ℤ → ℕ
pattern_of b (pos n) = n % 2 ^ b
pattern_of b (negsuc n) = 2 ^ b - 1 - n % 2 ^ b

abbrev pub is_below_zero : ℤ → Bool
is_below_zero (pos n) = false
is_below_zero (negsuc n) = true

abbrev pub is_zero : ℤ → Bool
is_zero (pos n) = n == 0
is_zero (negsuc n) = false

-- N, Z and V of a value, with C cleared.
abbrev pub with_flags : Ccr → Bool → Bool → Bool → Ccr
with_flags f negative zero_value overflow = record f {
  n = negative;
  z = zero_value;
  v = overflow;
  c = false;
}

-- MULU_LL; the value is 64 bits wide.
unfoldable pub mulu_ll : Ccr → ℕ → ℕ → Alu
mulu_ll f a b =
    let v : ℕ = a * b in record { ccr = with_flags f (leb (2 ^ 63) v) (v == 0) false; value = v }

-- MULS_LL.
unfoldable pub muls_ll : Ccr → ℕ → ℕ → Alu
unfolding ◌*ℤ◌
muls_ll f a b =
    let v : ℤ = signed long a *ℤ signed long b in
    record { ccr = with_flags f (is_below_zero v) (is_zero v) false; value = pattern_of 64 v }

-- MULU_L: N is `v >> 31` of the 64-bit product, as a truth value.
unfoldable pub mulu_l : Ccr → ℕ → ℕ → Alu
mulu_l f a b =
    let v : ℕ = a * b in
    record {
      ccr = with_flags f (not (v / 2 ^ 31 == 0)) (v == 0) (not (v / 2 ^ 32 == 0));
      value = v % 2 ^ 32;
    }

-- MULS_L.
unfoldable pub muls_l : Ccr → ℕ → ℕ → Alu
unfolding ◌*ℤ◌
muls_l f a b =
    let v : ℤ = signed long a *ℤ signed long b in
    record {
      ccr = with_flags f (is_below_zero v) (is_zero v) (not (fits long v));
      value = pattern_of 32 v;
    }

-- MULU_W.
unfoldable pub mulu_w : Ccr → ℕ → ℕ → Alu
mulu_w f a b =
    let v : ℕ = a * b in
    record { ccr = with_flags f (not (v / 2 ^ 31 == 0)) (v == 0) false; value = v }

-- MULS_W.
unfoldable pub muls_w : Ccr → ℕ → ℕ → Alu
unfolding ◌*ℤ◌
muls_w f a b =
    let v : ℤ = signed word a *ℤ signed word b in
    record { ccr = with_flags f (is_below_zero v) (is_zero v) false; value = pattern_of 32 v }
