-- ===== src/Rotate/Inverse.antt =====
-- A rotation to the right is undone by one to the left of the same count.
use newmacemu.Common.{ℕ, ◌%◌, ◌<◌, ◌≡◌, ap, ◌∙◌, true, some, arith, bit, ltb, Size, bits, modulus}
use newmacemu.Common.Bits.{bit_ext}
use newmacemu.Ccr.{Ccr, Alu}
use newmacemu.Rotate.{ror, rol}
use newmacemu.Rotate.Plain.{ring_down, up-down, down-lt, ror-IsRing, rol-IsRing, turn-lt}

lt-ltb : (a b : ℕ) → a < b → ltb a b ≡ true
lt-ltb a b h = ground arith

-- For an operand of a size and a count that is no multiple of its width, ROR_ gives a result, ROL_ of
-- that result by the same count gives one too, and this is the operand.
pub rol-ror :
    (s : Size) (f g : Ccr) (v c : ℕ)
    → v < modulus s
    → 0 < c % bits s
    → (r : Alu) × (q : Alu) × (ror s f v c ≡ some r) × (rol s g r.value c ≡ some q) × (q.value ≡ v)
rol-ror s f g v c h some_bits =
    let right = ror-IsRing s f v c h some_bits in
    let left = rol-IsRing s g right.result.value c right.in_range some_bits in
    let turn : c % bits s < bits s = turn-lt s f v c h some_bits in
    (
      right.result,
      left.result,
      right.returns,
      left.returns,
      bit_ext (bits s) left.result.value v left.in_range h λ k small.
          left.each k
          ∙ rw (lt-ltb k (bits s) small) (
              right.each (ring_down (bits s) k (c % bits s))
              ∙ rw (lt-ltb _ (bits s) (down-lt (bits s) k (c % bits s) small turn))
                  (ap (bit v) (up-down (bits s) k (c % bits s) small turn))),
    )
