-- ===== src/Logic.antt =====
-- src/cpu/bits.cc, its first part: AND_, OR_, XOR_, NOT_ and the bit instructions BTST_ to BSET_.
pub mod Masks
use newmacemu.Common.{
  ℕ, ◌-◌, ◌*◌, ◌^◌, Bool, false, not, bit_and, bit_or, bit_xor, bit, not32, Size, wrap, modulus,
}
use newmacemu.Ccr.{Ccr, Alu, test}

-- The common end of AND_, OR_ and XOR_.
abbrev logical : Size → Ccr → ℕ → Alu
logical s f re = record { ccr = record (test s re f) { v = false; c = false }; value = re }

-- AND_B, AND_W, AND_L.
unfoldable pub and : Size → Ccr → ℕ → ℕ → Alu
unfolding test
and s f a b = logical s f (bit_and a b)

-- OR_B, OR_W, OR_L.
unfoldable pub or : Size → Ccr → ℕ → ℕ → Alu
unfolding test
or s f a b = logical s f (bit_or a b)

-- XOR_B, XOR_W, XOR_L.
unfoldable pub exclusive_or : Size → Ccr → ℕ → ℕ → Alu
unfolding test
exclusive_or s f a b = logical s f (bit_xor a b)

-- NOT_B, NOT_W, NOT_L: V and C are left alone.
unfoldable pub complement : Size → Ccr → ℕ → Alu
unfolding test
complement s f v = let re = wrap s (not32 v) in record { ccr = test s re f; value = re }

-- BTST_B, BTST_L.
unfoldable pub btst : Ccr → ℕ → ℕ → Ccr
btst f v b = record f { z = not (bit v b) }

-- BCHG_B, BCHG_L.
unfoldable pub bchg : Size → Ccr → ℕ → ℕ → Alu
unfolding btst
bchg s f v b = record { ccr = btst f v b; value = wrap s (bit_xor v (2 ^ b)) }

-- BCLR_B, BCLR_L.
unfoldable pub bclr : Size → Ccr → ℕ → ℕ → Alu
unfolding btst
bclr s f v b = record { ccr = btst f v b; value = wrap s (bit_and v (not32 (2 ^ b))) }

-- BSET_B, BSET_L.
unfoldable pub bset : Size → Ccr → ℕ → ℕ → Alu
unfolding btst
bset s f v b = record { ccr = btst f v b; value = wrap s (bit_or v (2 ^ b)) }
