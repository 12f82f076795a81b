-- ===== src/Logic/Masks.antt =====
-- What the logical instructions do to each bit of their operand.
use newmacemu.Common.{
  ℕ, ◌^◌, ◌≤◌, ◌<◌, ◌≡◌, refl, sym, ap, ◌∙◌, Bool, true, false, not, ◌&&◌, ◌||◌, arith, bit_and,
  bit_or, bit_xor, bit, not32, xor, leb, ◌==◌, if◌then◌else◌, Size, byte, word, long, wrap, bits,
  top, modulus, Bool-cases, ltb, inl, inr,
}
use mathlib.Core.Path.{ap₂}
use native.Mathlib.Nat.{mod-eq_of_lt}
use newmacemu.Common.Mask.{pow-lt}
use newmacemu.Common.Bits.{
  bit-bit_and, bit-bit_or, bit-bit_xor, bit-not32, bit_ext, bit_above, bit_and-lt, bit_or-lt,
  bit_xor-lt,
}
use newmacemu.Common.Select.{bit-pow, bit-mod}
use newmacemu.Ccr.{Ccr, Alu, test}
use newmacemu.Logic.{and, or, exclusive_or, complement, btst, bchg, bclr, bset}

-- A logical operation works on each bit by itself; N is the top bit, Z says that no bit is set, V and
-- C are cleared, and X is left alone.
pub record IsBitwise (s : Size) (f : Ccr) (op : Bool → Bool → Bool) (a b : ℕ) (r : Alu)
    : Type 0 where
  pub in_range : r.value < modulus s
  pub each : (k : ℕ) → bit r.value k ≡ op (bit a k) (bit b k)
  pub negative : r.ccr.n ≡ bit r.value (top s)
  pub zero : r.ccr.z ≡ (r.value == 0)
  pub overflow : r.ccr.v ≡ false
  pub carry : r.ccr.c ≡ false
  pub extend : r.ccr.x ≡ f.x

sign_bit : (s : Size) (v : ℕ) → v < modulus s → leb (2 ^ top s) (wrap s v) ≡ bit v (top s)
sign_bit byte v h = ground arith
sign_bit word v h = ground arith
sign_bit long v h = ground arith

zero_test : (s : Size) (v : ℕ) → v < modulus s → (wrap s v == 0) ≡ (v == 0)
zero_test byte v h = ground arith
zero_test word v h = ground arith
zero_test long v h = ground arith

module _ (s : Size) (f : Ccr) (a b : ℕ) (p : a < modulus s) (q : b < modulus s) where
  -- For operands of a size, AND_ gives the value whose bits are the conjunctions of theirs, sets N and Z
  -- by it, clears V and C, and keeps X.
  pub and-IsBitwise : IsBitwise s f ◌&&◌ a b (and s f a b)
  unfolding and test
  and-IsBitwise =
      let h : bit_and a b < modulus s = bit_and-lt (bits s) a b p in
      record {
        in_range = h;
        each = λ k. bit-bit_and k a b;
        negative = sign_bit s (bit_and a b) h;
        zero = zero_test s (bit_and a b) h;
        overflow = refl;
        carry = refl;
        extend = refl;
      }

  -- For operands of a size, OR_ gives the value whose bits are the disjunctions of theirs, sets N and Z
  -- by it, clears V and C, and keeps X.
  pub or-IsBitwise : IsBitwise s f ◌||◌ a b (or s f a b)
  unfolding or test
  or-IsBitwise =
      let h : bit_or a b < modulus s = bit_or-lt (bits s) a b p q in
      record {
        in_range = h;
        each = λ k. bit-bit_or k a b;
        negative = sign_bit s (bit_or a b) h;
        zero = zero_test s (bit_or a b) h;
        overflow = refl;
        carry = refl;
        extend = refl;
      }

  -- For operands of a size, XOR_ gives the value whose bits say where theirs differ, sets N and Z by it,
  -- clears V and C, and keeps X.
  pub exclusive_or-IsBitwise : IsBitwise s f xor a b (exclusive_or s f a b)
  unfolding exclusive_or test
  exclusive_or-IsBitwise =
      let h : bit_xor a b < modulus s = bit_xor-lt (bits s) a b p q in
      record {
        in_range = h;
        each = λ k. bit-bit_xor k a b;
        negative = sign_bit s (bit_xor a b) h;
        zero = zero_test s (bit_xor a b) h;
        overflow = refl;
        carry = refl;
        extend = refl;
      }

-- The three flip instructions: only bit b of the operand changes, to `g` of what it was; the test
-- has put the complement of the old bit in Z, and the other codes are left alone.
pub record ChangesBit (s : Size) (f : Ccr) (g : Bool → Bool) (v b : ℕ) (r : Alu) : Type 0 where
  pub in_range : r.value < modulus s
  pub each : (k : ℕ) → bit r.value k ≡ (if k == b then g (bit v k) else bit v k)
  pub codes : r.ccr ≡ record f { z = not (bit v b) }

bits-le : (s : Size) → bits s ≤ 32
bits-le byte = omega arith
bits-le word = omega arith
bits-le long = omega arith

wrap-lt : (s : Size) (x : ℕ) → wrap s x < modulus s
wrap-lt byte x = omega arith
wrap-lt word x = omega arith
wrap-lt long x = omega arith

-- A masked bit, written as the choice that it makes.
flip_choice : (old hit : Bool) → xor old hit ≡ (if hit then not old else old)
flip_choice old hit = ground arith

clear_choice : (old hit : Bool) → (old && not hit) ≡ (if hit then false else old)
clear_choice old hit = ground arith

set_choice : (old hit : Bool) → (old || hit) ≡ (if hit then true else old)
set_choice old hit = ground arith

-- The bits of `v & ~(1 << b)`.
cleared :
    (s : Size) (v b k : ℕ)
    → v < modulus s
    → b < bits s
    → bit (bit_and v (not32 (2 ^ b))) k ≡ (bit v k && not (k == b))
cleared s v b k p h = elim (Bool-cases (ltb k 32)) [
  | inl low ↦
      bit-bit_and k v (not32 (2 ^ b))
      ∙ ap (◌&&◌ (bit v k)) (
          bit-not32 k (2 ^ b) (ground arith) (pow-lt b 32 (omega (arith, bits-le s)))
          ∙ ap not (bit-pow b k))
  | inr high ↦
      let none : bit v k ≡ false = bit_above (bits s) k v p (ground (arith, bits-le s)) in
      bit-bit_and k v (not32 (2 ^ b)) ∙ rw none
]

module _ (s : Size) (f : Ccr) (v b : ℕ) (p : v < modulus s) (h : b < bits s) where
  pow-lt_modulus : 2 ^ b < 2 ^ bits s
  pow-lt_modulus = pow-lt b (bits s) h

  -- For an operand of a size and a bit number in it, BCHG_ inverts that bit of the operand and no
  -- other, and changes of the condition codes only Z, to the complement of the old bit.
  pub bchg-ChangesBit : ChangesBit s f not v b (bchg s f v b)
  unfolding bchg btst
  bchg-ChangesBit = record {
    in_range = wrap-lt s (bit_xor v (2 ^ b));
    each = λ k.
        ap (λ t. bit t k) (mod-eq_of_lt (bit_xor-lt (bits s) v (2 ^ b) p pow-lt_modulus))
        ∙ bit-bit_xor k v (2 ^ b)
        ∙ ap (xor (bit v k)) (bit-pow b k)
        ∙ flip_choice (bit v k) (k == b);
    codes = refl;
  }

  -- For an operand of a size and a bit number in it, BCLR_ clears that bit of the operand and changes no
  -- other, and changes of the condition codes only Z, to the complement of the old bit.
  pub bclr-ChangesBit : ChangesBit s f (λ _. false) v b (bclr s f v b)
  unfolding bclr btst
  bclr-ChangesBit = record {
    in_range = wrap-lt s (bit_and v (not32 (2 ^ b)));
    each = λ k.
        ap (λ t. bit t k) (mod-eq_of_lt (bit_and-lt (bits s) v (not32 (2 ^ b)) p))
        ∙ cleared s v b k p h
        ∙ clear_choice (bit v k) (k == b);
    codes = refl;
  }

  -- For an operand of a size and a bit number in it, BSET_ sets that bit of the operand and changes no
  -- other, and changes of the condition codes only Z, to the complement of the old bit.
  pub bset-ChangesBit : ChangesBit s f (λ _. true) v b (bset s f v b)
  unfolding bset btst
  bset-ChangesBit = record {
    in_range = wrap-lt s (bit_or v (2 ^ b));
    each = λ k.
        ap (λ t. bit t k) (mod-eq_of_lt (bit_or-lt (bits s) v (2 ^ b) p pow-lt_modulus))
        ∙ bit-bit_or k v (2 ^ b)
        ∙ ap (◌||◌ (bit v k)) (bit-pow b k)
        ∙ set_choice (bit v k) (k == b);
    codes = refl;
  }

-- NOT_ inverts every bit, so twice NOT_ gives the operand back.
pub complement-complement :
    (s : Size) (f g : Ccr) (v : ℕ)
    → v < modulus s
    → (complement s g (complement s f v).value).value ≡ v
unfolding complement
complement-complement byte f g v h = omega arith
complement-complement word f g v h = omega arith
complement-complement long f g v h = omega arith

complement-lt : (s : Size) (f : Ccr) (v : ℕ) → (complement s f v).value < modulus s
unfolding complement
complement-lt s f v = wrap-lt s (not32 v)

bit-complement_value :
    (s : Size) (f : Ccr) (v k : ℕ)
    → v < modulus s
    → k < bits s
    → bit (complement s f v).value k ≡ not (bit v k)
unfolding complement
bit-complement_value s f v k h small =
    bit-mod (bits s) k (not32 v) small ∙ bit-not32 k v (omega (arith, bits-le s)) (below s h)
  where
    below : (s : Size) → v < modulus s → v < 2 ^ 32
    below byte h = omega arith
    below word h = omega arith
    below long h = omega arith

not-and : (a b : Bool) → not (a && b) ≡ (not a || not b)
not-and a b = ground arith

-- De Morgan: for operands of a size, NOT_ of AND_ is OR_ of the two NOT_.
pub complement-and :
    (s : Size) (f : Ccr) (a b : ℕ)
    → a < modulus s
    → b < modulus s
    → (complement s f (and s f a b).value).value
      ≡ (or s f (complement s f a).value (complement s f b).value).value
complement-and s f a b p q =
    let both = and-IsBitwise s f a b p q in
    let a' = (complement s f a).value in
    let b' = (complement s f b).value in
    let either = or-IsBitwise s f a' b' (complement-lt s f a) (complement-lt s f b) in
    bit_ext (bits s) _ _ (complement-lt s f _) either.in_range λ k small.
      bit-complement_value s f _ k both.in_range small
      ∙ ap not (both.each k)
      ∙ not-and (bit a k) (bit b k)
      ∙ sym (
          either.each k
          ∙ ap₂ ◌||◌ (bit-complement_value s f a k p small) (bit-complement_value s f b k q small))
