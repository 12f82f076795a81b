-- ===== src/Common/Select.antt =====
-- The bits of a single-bit mask, of a wrapped value, and of shifted values.
use Prim.Native.Nat.{ℕ, zero, suc, ◌+◌, ◌*◌, ◌/◌, ◌%◌, ◌^◌, ◌<◌}
use mathlib.Core.Path.{◌≡◌, refl, ap, ap₂, sym, ◌∙◌}
use mathlib.Core.Bool.{false}
use native.Mathlib.Nat.{pow-succ', one-le-pow, div-div-eq-div-mul}
use native.Mathlib.Omega.{arith}
use newmacemu.Common.Tests.{◌==◌}
use newmacemu.Common.Word.{bit}
use newmacemu.Common.Bits.{bit-suc, bit_above}
use newmacemu.Common.Mask.{double_mod}

-- `1 << b` has bit b and no other.
pub bit-pow : (b k : ℕ) → bit (2 ^ b) k ≡ (k == b)
bit-pow zero zero = refl
bit-pow zero (suc k) = rw (bit_above 1 (suc k) 1 (omega arith) (omega arith)) (ground arith)
bit-pow (suc b) zero = ground (arith, pow-succ' 2 b)
bit-pow (suc b) (suc k) =
    let half : 2 ^ suc b / 2 ≡ 2 ^ b = omega (arith, pow-succ' 2 b) in
    rw (bit-suc (2 ^ suc b) k, half) (bit-pow b k ∙ ground arith)

-- Wrapping keeps the bits below the width.
pub bit-mod : (n k x : ℕ) → k < n → bit (x % 2 ^ n) k ≡ bit x k
bit-mod zero k x h = absurd (omega arith)
bit-mod (suc n) zero x h =
    ground (arith, pow-succ' 2 n, double_mod (2 ^ n) x (one-le-pow n 2 (omega arith)))
bit-mod (suc n) (suc k) x h =
    let pos : 0 < 2 ^ n = one-le-pow n 2 (omega arith) in
    let half : x % 2 ^ suc n / 2 ≡ x / 2 % 2 ^ n =
      rw (pow-succ' 2 n, double_mod (2 ^ n) x pos) (omega arith) in
    rw (bit-suc (x % 2 ^ suc n) k, bit-suc x k, half) (bit-mod n k (x / 2) (omega arith))

pow-suc_half : (c x : ℕ) → x / 2 ^ suc c ≡ x / 2 / 2 ^ c
pow-suc_half c x = rw (pow-succ' 2 c) (sym (div-div-eq-div-mul x 2 (2 ^ c)))

pub mul-half : (c x : ℕ) → x * 2 ^ suc c / 2 ≡ x * 2 ^ c
mul-half c x = omega (arith, ap (λ (t : ℕ). x * t) (pow-succ' 2 c))

-- A shift to the right moves bit k + c to place k.
pub bit-div : (c k x : ℕ) → bit (x / 2 ^ c) k ≡ bit x (k + c)
bit-div zero k x = ap₂ bit (omega arith) (omega arith)
bit-div (suc c) k x =
    ap (λ t. bit t k) (pow-suc_half c x)
    ∙ bit-div c k (x / 2)
    ∙ sym (bit-suc x (k + c))
    ∙ ap (bit x) (omega arith)

-- A shift to the left moves bit k to place k + c.
pub bit-mul : (c k x : ℕ) → bit (x * 2 ^ c) (k + c) ≡ bit x k
bit-mul zero k x = ap₂ bit (omega arith) (omega arith)
bit-mul (suc c) k x =
    ap (bit (x * 2 ^ suc c)) (omega arith)
    ∙ bit-suc (x * 2 ^ suc c) (k + c)
    ∙ ap (λ t. bit t (k + c)) (mul-half c x)
    ∙ bit-mul c k x

-- Below place c there are zeros.
pub bit-mul_low : (c k x : ℕ) → k < c → bit (x * 2 ^ c) k ≡ false
bit-mul_low zero k x h = absurd (omega arith)
bit-mul_low (suc c) zero x h = ground (arith, ap (λ (t : ℕ). x * t) (pow-succ' 2 c))
bit-mul_low (suc c) (suc k) x h =
    bit-suc (x * 2 ^ suc c) k ∙ ap (λ t. bit t k) (mul-half c x) ∙ bit-mul_low c k x (omega arith)
