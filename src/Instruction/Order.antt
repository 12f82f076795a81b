-- ===== src/Instruction/Order.antt =====
-- src/cpu/op.cc with src/cpu/arithmetic.cc: what the conditions of testCC say after a comparison.
use newmacemu.Common.{
  ℕ, ◌<◌, ◌≡◌, refl, Bool, true, false, not, ◌&&◌, ◌||◌, ltb, leb, ◌==◌, arith, ap, ◌∙◌, ◌+◌, ◌-◌,
  ◌%◌, ◌^◌, xor, top, signed, fits, Size, byte, word, long, modulus,
}
use newmacemu.Common.Int.{◌-ℤ◌}
use newmacemu.Ccr.{Ccr}
use newmacemu.Arithmetic.{cmp}
use newmacemu.Arithmetic.Difference.{sub-IsDifference, cmp-sub}
use newmacemu.Compare.{signed_lt}
use newmacemu.Instruction.Conditions.{test_cc}

-- The conditions HI to LE that compare, on flags that a comparison of a with b left: the unsigned order,
-- equality, and the signed order.
pub record IsOrdered (s : Size) (a b : ℕ) (f : Ccr) : Type 0 where
  pub hi : test_cc 2 f ≡ ltb b a
  pub ls : test_cc 3 f ≡ leb a b
  pub cc : test_cc 4 f ≡ leb b a
  pub cs : test_cc 5 f ≡ ltb a b
  pub ne : test_cc 6 f ≡ not (a == b)
  pub eq : test_cc 7 f ≡ (a == b)
  pub ge : test_cc 12 f ≡ not (signed_lt s a b)
  pub lt : test_cc 13 f ≡ signed_lt s a b
  pub gt : test_cc 14 f ≡ signed_lt s b a
  pub le : test_cc 15 f ≡ not (signed_lt s b a)

signed_order :
    (s : Size) (a b : ℕ) (n v : Bool)
    → a < modulus s
    → b < modulus s
    → n ≡ leb (2 ^ top s) ((a + modulus s - b) % modulus s)
    → v ≡ not (fits s (signed s a -ℤ signed s b))
    → xor n v ≡ signed_lt s a b
unfolding ◌-ℤ◌
signed_order byte a b n v p q negative overflow = ground arith
signed_order word a b n v p q negative overflow = ground arith
signed_order long a b n v p q negative overflow = ground arith

signed_flip :
    (s : Size) (a b : ℕ)
    → a < modulus s
    → b < modulus s
    → not (a == b) && not (signed_lt s a b) ≡ signed_lt s b a
signed_flip byte a b p q = ground arith
signed_flip word a b p q = ground arith
signed_flip long a b p q = ground arith

de_morgan : (p q : Bool) → p || q ≡ not (not p && not q)
de_morgan true q = refl
de_morgan false true = refl
de_morgan false false = refl

-- After CMP_ of two operands of a size, the conditions HI, LS, CC, CS, NE and EQ are the unsigned order
-- and the equality of the operands, and GE, LT, GT and LE are their signed order.
pub test_cc-cmp :
    (s : Size) (f : Ccr) (a b : ℕ) → a < modulus s → b < modulus s → IsOrdered s a b (cmp s f a b)
unfolding test_cc
test_cc-cmp s f a b p q =
    let d = sub-IsDifference s f a b p q in
    let lower = signed_order s a b _ _ p q (d.negative ∙ ap (leb (2 ^ top s)) d.value) d.overflow in
    let higher = signed_flip s a b p q in
    rw (cmp-sub s f a b, d.carry, d.zero)
      record {
        hi = ground arith;
        ls = ground arith;
        cc = ground arith;
        cs = refl;
        ne = refl;
        eq = refl;
        ge = ap not lower;
        lt = lower;
        gt = ap (λ x. not (a == b) && not x) lower ∙ higher;
        le = de_morgan (a == b) _ ∙ ap not (ap (λ x. not (a == b) && not x) lower ∙ higher);
      }
