-- ===== src/Instruction/Products.antt =====
-- src/cpu/op.cc: the instructions of multiplication and division, and CHK.
use newmacemu.Common.{
  ℕ, ◌+◌, ◌*◌, ◌/◌, ◌%◌, ◌^◌, not, bit_and, bit, ◌==◌, if◌then◌else◌, Size, word, long,
}
use newmacemu.Product.{mulu_ll, muls_ll, mulu_l, muls_l, mulu_w, muls_w}
use newmacemu.Division.{
  Divided, divided, div0_error, overflow_undefined, divu_ll, divs_ll, divu_l, divs_l, divu_w,
  divs_w,
}
use newmacemu.Compare.{chk}
use newmacemu.Machine.{Machine, div0, ok, halted, M, ◌>>=◌}
use newmacemu.Bus.{Devices}
use newmacemu.Memory.{Mmu}
use newmacemu.Fetch.{fetch}
use newmacemu.Status.{raise}
use newmacemu.Instruction.{dn_of, computed, data_of, low_of, set_d, source}

-- `ext >> 12 & 7` and `ext & 7`.
abbrev low_number : ℕ → ℕ
low_number ext = bit_and (ext / 2 ^ 12) 7

abbrev high_number : ℕ → ℕ
high_number ext = bit_and ext 7

module _ {Io : Type 0} where
  -- The registers that take the two halves of a product, in the order of the assignments.
  abbrev halves : ℕ → ℕ → M Io (Unit {0})
  halves ext v = do
    high ← set_d (high_number ext) (v / 2 ^ 32 % 2 ^ 32)
    set_d (low_number ext) (v % 2 ^ 32)

  -- What a division leaves; a division by zero raises its exception, and the model stops at a quotient
  -- that C++ leaves undefined.
  abbrev settled : Divided → (ℕ → ℕ → M Io (Unit {0})) → M Io (Unit {0})
  settled (divided f q r) k m = k q r (record m { ccr = f })
  settled div0_error k m = raise div0 m
  settled overflow_undefined k m = halted m

  -- `cpu.D[q] = quo; if(q != r) cpu.D[r] = rem;`
  abbrev quotient_stored : ℕ → ℕ → ℕ → M Io (Unit {0})
  quotient_stored ext q r = set_d (low_number ext) q >>= λ done m.
      if not (low_number ext == high_number ext) then set_d (high_number ext) r m else ok tt m

  -- The dividend of 64 bits.
  abbrev wide : ℕ → Machine Io → ℕ
  wide ext m = m.d (high_number ext) * 2 ^ 32 + m.d (low_number ext)

  abbrev division : ℕ → ℕ → Machine Io → Divided
  division ext v m =
      if not (bit ext 11)
      then (if not (bit ext 10)
          then divu_l m.ccr (m.d (low_number ext)) v
          else divu_ll m.ccr (wide ext m) v)
      else if not (bit ext 10)
      then divs_l m.ccr (m.d (low_number ext)) v
      else divs_ll m.ccr (wide ext m) v

  abbrev product : ℕ → ℕ → ℕ → M Io (Unit {0})
  product ext low v =
      if not (bit ext 11)
      then (if not (bit ext 10)
          then (computed (λ f. mulu_l f low v) >>= λ r. set_d (low_number ext) r)
          else computed (λ f. mulu_ll f low v) >>= λ r. halves ext r)
      else if not (bit ext 10)
      then (computed (λ f. muls_l f low v) >>= λ r. set_d (low_number ext) r)
      else computed (λ f. muls_ll f low v) >>= λ r. halves ext r

module _ {Io : Type 0} (devices : Devices Io) (mmu : Mmu Io) where
  unfoldable pub mul_l : ℕ → M Io (Unit {0})
  mul_l op = do
    ext ← fetch devices mmu
    v ← source devices mmu long op
    low ← data_of (low_number ext)
    product ext low v

  unfoldable pub div_l : ℕ → M Io (Unit {0})
  div_l op = do
    ext ← fetch devices mmu
    v ← source devices mmu long op
    λ m. settled (division ext v m) (quotient_stored ext) m

  unfoldable pub mulu_w_dn : ℕ → M Io (Unit {0})
  mulu_w_dn op = do
    v ← source devices mmu word op
    a ← low_of word (dn_of op)
    r ← computed (λ f. mulu_w f a v)
    set_d (dn_of op) r

  unfoldable pub muls_w_dn : ℕ → M Io (Unit {0})
  muls_w_dn op = do
    v ← source devices mmu word op
    a ← low_of word (dn_of op)
    r ← computed (λ f. muls_w f a v)
    set_d (dn_of op) r

  -- `div_r << 16 | div_q`, each a uint16_t.
  abbrev packed : ℕ → ℕ → ℕ → M Io (Unit {0})
  packed op q r = set_d (dn_of op) (r % 2 ^ 16 * 2 ^ 16 + q)

  unfoldable pub divu_w_dn : ℕ → M Io (Unit {0})
  divu_w_dn op = do
    v ← source devices mmu word op
    λ m. settled (divu_w m.ccr (m.d (dn_of op)) v) (packed op) m

  unfoldable pub divs_w_dn : ℕ → M Io (Unit {0})
  divs_w_dn op = do
    v ← source devices mmu word op
    λ m. settled (divs_w m.ccr (m.d (dn_of op)) v) (packed op) m

  -- chk_w, chk_l.
  unfoldable pub chk_ea : Size → ℕ → M Io (Unit {0})
  chk_ea w op = do range ← source devices mmu w op; v ← low_of w (dn_of op); chk w v range
