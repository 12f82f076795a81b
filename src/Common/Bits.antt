-- ===== src/Common/Bits.antt =====
-- `&`, `|`, `^` and `~` bit by bit: the native operations from the recursion on digits that they
-- stand for.
use Prim.Native.Nat.{
  ℕ, zero, suc, ◌+◌, ◌-◌, ◌*◌, ◌/◌, ◌%◌, ◌^◌, ◌≤◌, ◌<◌, min, max, bit_and, bit_or, bit_xor, digits,
  bitwise, bit_and-bitwise, bit_or-bitwise, bit_xor-bitwise, differ,
}
use mathlib.Core.Path.{◌≡◌, refl, ap, sym, ◌∙◌}
use mathlib.Core.Bool.{false, not, ◌&&◌, ◌||◌}
use native.Mathlib.Nat.{pow-succ', div-div-eq-div-mul, one-le-pow}
use native.Mathlib.Omega.{arith}
use newmacemu.Common.Tests.{xor, ◌==◌}
use newmacemu.Common.Word.{bit, not32}

-- The fuel of `digits` does not matter once it covers the first number.
module _ (rest : ℕ → ℕ) (op : ℕ → ℕ → ℕ) where
  same_digits : (a b : ℕ) (m n : ℕ) → a ≤ m → a ≤ n → digits rest op m a b ≡ digits rest op n a b
  same_digits a b zero zero _ _ = refl
  same_digits zero b zero (suc n) _ _ = refl
  same_digits zero b (suc m) zero _ _ = refl
  same_digits zero b (suc m) (suc n) _ _ = refl
  same_digits (suc a) b zero (suc n) small _ = absurd (omega arith)
  same_digits (suc a) b (suc m) zero _ small = absurd (omega arith)
  same_digits (suc a) b (suc m) (suc n) p q =
      omega (arith, same_digits (suc a / 2) (b / 2) m n (omega arith) (omega arith))

  lowest_digit :
      (a b : ℕ)
      → bitwise rest op (suc a) b ≡ bitwise rest op (suc a / 2) (b / 2) * 2 + op (suc a % 2) (b % 2)
  lowest_digit a b =
      omega (arith, same_digits (suc a / 2) (b / 2) a (suc a / 2) (omega arith) (omega arith))

pub and_step : (x y : ℕ) → bit_and x y ≡ min (x % 2) (y % 2) + 2 * bit_and (x / 2) (y / 2)
and_step zero y = simp bit_and-bitwise (omega arith)
and_step (suc x) y = simp bit_and-bitwise (omega (arith, lowest_digit (λ _. 0) min x y))

pub or_step : (x y : ℕ) → bit_or x y ≡ max (x % 2) (y % 2) + 2 * bit_or (x / 2) (y / 2)
or_step zero y = simp bit_or-bitwise (omega arith)
or_step (suc x) y = simp bit_or-bitwise (omega (arith, lowest_digit (λ t. t) max x y))

differ_digits : (x y : ℕ) → x < 2 → y < 2 → differ x y ≡ (x + y) % 2
differ_digits zero y p q = omega arith
differ_digits (suc zero) zero p q = refl
differ_digits (suc zero) (suc zero) p q = refl
differ_digits (suc zero) (suc (suc y)) p q = absurd (omega arith)
differ_digits (suc (suc x)) y p q = absurd (omega arith)

differ_parity : (a b : ℕ) → differ (a % 2) (b % 2) ≡ (a + b) % 2
differ_parity a b = omega (arith, differ_digits (a % 2) (b % 2) (omega arith) (omega arith))

pub xor_step : (a b : ℕ) → bit_xor a b ≡ bit_xor (a / 2) (b / 2) * 2 + (a + b) % 2
xor_step zero b = simp bit_xor-bitwise (omega arith)
xor_step (suc a) b = simp bit_xor-bitwise (
    lowest_digit (λ y. y) differ a b
    ∙ ap (λ t. bitwise (λ y. y) differ (suc a / 2) (b / 2) * 2 + t) (differ_parity (suc a) b))

-- Bit k + 1 is bit k of the half.
pub bit-suc : (x k : ℕ) → bit x (suc k) ≡ bit (x / 2) k
bit-suc x k = rw (pow-succ' 2 k, ← div-div-eq-div-mul x 2 (2 ^ k))

pub bit-zero : (x : ℕ) → bit x 0 ≡ (x % 2 == 1)
bit-zero x = ground arith

-- The bits of a conjunction are the conjunctions of the bits; so for the others.
pub bit-bit_and : (k a b : ℕ) → bit (bit_and a b) k ≡ (bit a k && bit b k)
bit-bit_and zero a b = ground (arith, and_step a b)
bit-bit_and (suc k) a b =
    let half : bit_and a b / 2 ≡ bit_and (a / 2) (b / 2) = omega (arith, and_step a b) in
    rw (bit-suc (bit_and a b) k, bit-suc a k, bit-suc b k, half) (bit-bit_and k (a / 2) (b / 2))

pub bit-bit_or : (k a b : ℕ) → bit (bit_or a b) k ≡ (bit a k || bit b k)
bit-bit_or zero a b = ground (arith, or_step a b)
bit-bit_or (suc k) a b =
    let half : bit_or a b / 2 ≡ bit_or (a / 2) (b / 2) = omega (arith, or_step a b) in
    rw (bit-suc (bit_or a b) k, bit-suc a k, bit-suc b k, half) (bit-bit_or k (a / 2) (b / 2))

pub bit-bit_xor : (k a b : ℕ) → bit (bit_xor a b) k ≡ xor (bit a k) (bit b k)
bit-bit_xor zero a b = ground (arith, xor_step a b)
bit-bit_xor (suc k) a b =
    let half : bit_xor a b / 2 ≡ bit_xor (a / 2) (b / 2) = omega (arith, xor_step a b) in
    rw (bit-suc (bit_xor a b) k, bit-suc a k, bit-suc b k, half) (bit-bit_xor k (a / 2) (b / 2))

-- A bit below position n, of the complement in n bits.
pub bit-complement : (n k a : ℕ) → k < n → a < 2 ^ n → bit (2 ^ n - 1 - a) k ≡ not (bit a k)
bit-complement zero k a h small = absurd (omega arith)
bit-complement (suc n) zero a h small = ground (arith, pow-succ' 2 n, one-le-pow n 2 (omega arith))
bit-complement (suc n) (suc k) a h small =
    let half : (2 ^ suc n - 1 - a) / 2 ≡ 2 ^ n - 1 - a / 2 = omega (arith, pow-succ' 2 n) in
    rw (bit-suc (2 ^ suc n - 1 - a) k, bit-suc a k, half)
      (bit-complement n k (a / 2) (omega arith) (omega (arith, pow-succ' 2 n)))

pub bit-not32 : (k a : ℕ) → k < 32 → a < 2 ^ 32 → bit (not32 a) k ≡ not (bit a k)
bit-not32 k a h small = bit-complement 32 k a h small

-- Two numbers of n bits with the same bits are equal.
pub bit_ext : (n a b : ℕ) → a < 2 ^ n → b < 2 ^ n → ((k : ℕ) → k < n → bit a k ≡ bit b k) → a ≡ b
bit_ext zero a b p q same = omega arith
bit_ext (suc n) a b p q same =
    let halves : a / 2 ≡ b / 2 =
      bit_ext n (a / 2) (b / 2) (omega (arith, pow-succ' 2 n)) (omega (arith, pow-succ' 2 n))
        (λ k h. sym (bit-suc a k) ∙ same (suc k) (omega arith) ∙ bit-suc b k) in
    ground (arith, halves, same 0 (omega arith))

-- No bit stands at or above the width of a number.
pub bit_above : (n k a : ℕ) → a < 2 ^ n → n ≤ k → bit a k ≡ false
bit_above zero zero a p h = ground arith
bit_above zero (suc k) a p h =
    rw (bit-suc a k) (bit_above zero k (a / 2) (omega arith) (omega arith))
bit_above (suc n) zero a p h = absurd (omega arith)
bit_above (suc n) (suc k) a p h =
    rw (bit-suc a k) (bit_above n k (a / 2) (omega (arith, pow-succ' 2 n)) (omega arith))

-- Combined bit by bit, numbers of n bits have n bits.
pub zero-and : (b : ℕ) → bit_and 0 b ≡ 0
zero-and b = simp bit_and-bitwise

pub zero-or : (b : ℕ) → bit_or 0 b ≡ b
zero-or b = simp bit_or-bitwise

pub zero-xor : (b : ℕ) → bit_xor 0 b ≡ b
zero-xor b = simp bit_xor-bitwise

below_one : (a : ℕ) → a < 1 → a ≡ 0
below_one a h = omega arith

pub bit_and-lt : (n a b : ℕ) → a < 2 ^ n → bit_and a b < 2 ^ n
bit_and-lt zero a b p = rw (below_one a p, zero-and b) (omega arith)
bit_and-lt (suc n) a b p =
    let p' : a / 2 < 2 ^ n = omega (arith, pow-succ' 2 n) in
    omega (arith, and_step a b, pow-succ' 2 n, bit_and-lt n (a / 2) (b / 2) p')

pub bit_or-lt : (n a b : ℕ) → a < 2 ^ n → b < 2 ^ n → bit_or a b < 2 ^ n
bit_or-lt zero a b p q = rw (below_one a p, zero-or b) q
bit_or-lt (suc n) a b p q =
    let p' : a / 2 < 2 ^ n = omega (arith, pow-succ' 2 n) in
    let q' : b / 2 < 2 ^ n = omega (arith, pow-succ' 2 n) in
    omega (arith, or_step a b, pow-succ' 2 n, bit_or-lt n (a / 2) (b / 2) p' q')

pub bit_xor-lt : (n a b : ℕ) → a < 2 ^ n → b < 2 ^ n → bit_xor a b < 2 ^ n
bit_xor-lt zero a b p q = rw (below_one a p, zero-xor b) q
bit_xor-lt (suc n) a b p q =
    let p' : a / 2 < 2 ^ n = omega (arith, pow-succ' 2 n) in
    let q' : b / 2 < 2 ^ n = omega (arith, pow-succ' 2 n) in
    omega (arith, xor_step a b, pow-succ' 2 n, bit_xor-lt n (a / 2) (b / 2) p' q')
