-- ===== src/Common/Mask.antt =====
-- `&` with a mask of low bits is a remainder, and `|` of disjoint fields is a sum.
use Prim.Native.Nat.{ℕ, zero, suc, ◌+◌, ◌-◌, ◌*◌, ◌/◌, ◌%◌, ◌^◌, ◌≤◌, ◌<◌, bit_and, bit_or}
use mathlib.Core.Path.{◌≡◌, ap, sym, ◌∙◌}
use native.Mathlib.Nat.{
  pow-succ', one-le-pow, div-div-eq-div-mul, pow-le-pow_right, add-mul-mod_self_right, mod-eq_of_lt,
}
use native.Mathlib.Omega.{arith}
use mathlib.Core.Bool.{Bool, ◌||◌}
use newmacemu.Common.Word.{bit}
use newmacemu.Common.Bits.{and_step, or_step, zero-and, zero-or, bit_ext, bit-bit_or, bit_or-lt}

and_zero : (k a : ℕ) → a < 2 ^ k → bit_and a 0 ≡ 0
and_zero zero a h = omega (arith, and_step a 0, zero-and 0, ap (λ t. bit_and t 0) (halved a h))
  where
    halved : (a : ℕ) → a < 1 → a / 2 ≡ 0
    halved a h = omega arith
and_zero (suc k) a h =
    let h' : a / 2 < 2 ^ k = omega (arith, pow-succ' 2 k) in
    omega (arith, and_step a 0, and_zero k (a / 2) h')

or_zero : (k a : ℕ) → a < 2 ^ k → bit_or a 0 ≡ a
or_zero zero a h = omega (arith, or_step a 0, zero-or 0, ap (λ t. bit_or t 0) (halved a h))
  where
    halved : (a : ℕ) → a < 1 → a / 2 ≡ 0
    halved a h = omega arith
or_zero (suc k) a h =
    let h' : a / 2 < 2 ^ k = omega (arith, pow-succ' 2 k) in
    omega (arith, or_step a 0, or_zero k (a / 2) h')

lt_pow : (a : ℕ) → a < 2 ^ a
lt_pow zero = omega arith
lt_pow (suc a) = omega (arith, lt_pow a, pow-succ' 2 a)

-- Powers of two grow strictly.
pub pow-lt : (b n : ℕ) → b < n → 2 ^ b < 2 ^ n
pow-lt b n h =
    let le : 2 ^ suc b ≤ 2 ^ n = pow-le-pow_right (omega arith) {j = n} h in
    omega (arith, pow-succ' 2 b, one-le-pow b 2 (omega arith))

shifted : (k r : ℕ) → r * 2 ^ suc k ≡ r * 2 ^ k + r * 2 ^ k
shifted k r = omega (arith, ap (λ (t : ℕ). r * t) (pow-succ' 2 k))

-- `q << k | r` with r below bit k.
pub bit_or-add : (k q r : ℕ) → r < 2 ^ k → bit_or (q * 2 ^ k) r ≡ q * 2 ^ k + r
bit_or-add zero q r h = ground (arith, or_zero q q (lt_pow q))
bit_or-add (suc k) q r h =
    let h' : r / 2 < 2 ^ k = omega (arith, pow-succ' 2 k) in
    ground (arith, or_step (q * 2 ^ suc k) r, shifted k q, bit_or-add k q (r / 2) h')

pub double_mod : (p a : ℕ) → 0 < p → a % (2 * p) ≡ 2 * (a / 2 % p) + a % 2
double_mod p a h =
    let low : ℕ = 2 * (a / 2 % p) + a % 2 in
    let split : a ≡ low + (a / 2 / p) * (2 * p) = grind arith in
    let small : low < 2 * p = grind arith in
    ap (λ (t : ℕ). t % (2 * p)) split
    ∙ add-mul-mod_self_right low (a / 2 / p) (2 * p)
    ∙ mod-eq_of_lt small

-- `a & (1 << k) - 1`.
pub bit_and-mod : (k a : ℕ) → bit_and a (2 ^ k - 1) ≡ a % 2 ^ k
bit_and-mod zero a = ground (arith, and_zero a a (lt_pow a))
bit_and-mod (suc k) a =
    let pos : 0 < 2 ^ k = one-le-pow k 2 (omega arith) in
    rw (pow-succ' 2 k, double_mod (2 ^ k) a pos)
      (ground (arith, and_step a (2 * 2 ^ k - 1), bit_and-mod k (a / 2)))

-- `a & (m << k)`.
pub bit_and-shifted : (k a m : ℕ) → bit_and a (m * 2 ^ k) ≡ bit_and (a / 2 ^ k) m * 2 ^ k
bit_and-shifted zero a m =
    let whole : m * 1 ≡ m = omega arith in
    let same : a / 1 ≡ a = omega arith in rw (whole, same) (omega arith)
bit_and-shifted (suc k) a m =
    let half : m * 2 ^ suc k / 2 ≡ m * 2 ^ k = omega (arith, shifted k m) in
    let place : a / 2 / 2 ^ k ≡ a / 2 ^ suc k =
      rw (pow-succ' 2 k) (div-div-eq-div-mul a 2 (2 ^ k)) in
    omega (
      arith,
      and_step a (m * 2 ^ suc k),
      ap (λ t. bit_and (a / 2) t) half,
      bit_and-shifted k (a / 2) m,
      ap (λ t. bit_and t m * 2 ^ k) place,
      shifted k m,
      shifted k (bit_and (a / 2 ^ suc k) m),
    )

pub bit_or_comm : (n a b : ℕ) → a < 2 ^ n → b < 2 ^ n → bit_or a b ≡ bit_or b a
bit_or_comm n a b p q =
    bit_ext n (bit_or a b) (bit_or b a) (bit_or-lt n a b p q) (bit_or-lt n b a q p)
      λ k h. bit-bit_or k a b ∙ either_comm (bit a k) (bit b k) ∙ sym (bit-bit_or k b a)
  where
    either_comm : (x y : Bool) → (x || y) ≡ (y || x)
    either_comm x y = ground arith
