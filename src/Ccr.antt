-- ===== src/Ccr.antt =====
-- The condition codes of `cpu` (include/68040.hpp), the TEST_ functions of include/inline.hpp, and
-- GetCCR and SetCCR (src/cpu/op.cc).
use newmacemu.Common.{
  ℕ, ◌+◌, ◌*◌, ◌%◌, ◌^◌, ◌≡◌, ◌<◌, Bool, arith, bit_or, to_num, bit, ◌==◌, Size, wrap, is_negative,
}

pub record Ccr : Type 0 where
  pub x : Bool
  pub n : Bool
  pub z : Bool
  pub v : Bool
  pub c : Bool

-- The value of an operation and the condition codes that it leaves in `cpu`.
pub record Alu : Type 0 where
  pub ccr : Ccr
  pub value : ℕ

-- TEST_B, TEST_W, TEST_L: the argument is converted to the signed type of the size.
unfoldable pub test : Size → ℕ → Ccr → Ccr
test s value f = record f { n = is_negative s value; z = wrap s value == 0 }

unfoldable pub get_ccr : Ccr → ℕ
get_ccr f =
    bit_or
      (bit_or (bit_or (bit_or (to_num f.x * 2 ^ 4) (to_num f.n * 2 ^ 3)) (to_num f.z * 2 ^ 2))
        (to_num f.v * 2))
      (to_num f.c)

unfoldable pub set_ccr : ℕ → Ccr
set_ccr value = record {
  x = bit value 4;
  n = bit value 3;
  z = bit value 2;
  v = bit value 1;
  c = bit value 0;
}

get_ccr-flags :
    (x n z v c : Bool)
    → get_ccr (record { x = x; n = n; z = z; v = v; c = c })
      ≡ to_num x * 16 + to_num n * 8 + to_num z * 4 + to_num v * 2 + to_num c
unfolding get_ccr
get_ccr-flags x n z v c = ground arith

pub get_ccr-lt : (f : Ccr) → get_ccr f < 32
get_ccr-lt f = ground (arith, get_ccr-flags f.x f.n f.z f.v f.c)

-- Writing a byte to the condition codes and reading it back keeps its five low bits.
pub get_ccr-set_ccr : (value : ℕ) → get_ccr (set_ccr value) ≡ value % 32
unfolding set_ccr
get_ccr-set_ccr value =
    ground
      (arith, get_ccr-flags (bit value 4) (bit value 3) (bit value 2) (bit value 1) (bit value 0))

-- Reading the condition codes and writing the byte back changes nothing.
pub set_ccr-get_ccr : (f : Ccr) → set_ccr (get_ccr f) ≡ f
unfolding set_ccr
set_ccr-get_ccr f = ground (arith, get_ccr-flags f.x f.n f.z f.v f.c)
