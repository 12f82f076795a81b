-- ===== src/Instruction/Binary.antt =====
-- src/cpu/op.cc: the instructions of two operands, one in a register: OR, SUB, CMP, EOR, AND, ADD, their
-- forms on address registers, and ADDQ and SUBQ.
use newmacemu.Common.{ℕ, Size, long, sign_extend}
use newmacemu.Ccr.{Ccr, Alu}
use newmacemu.Arithmetic.{add, sub, cmp}
use newmacemu.Logic.{and, or, exclusive_or}
use newmacemu.Machine.{M, ◌>>=◌, gets, modify, update}
use newmacemu.Bus.{Devices}
use newmacemu.Memory.{Mmu, offset}
use newmacemu.Stack.{below}
use newmacemu.Common.{wrap}
use newmacemu.Instruction.{
  reg_of, dn_of, quick_of, computed, flagged, low_of, store_d, source, rewritten,
}

module _ {Io : Type 0} where
  unfoldable pub addq_an : ℕ → M Io (Unit {0})
  addq_an op =
      modify (λ m. record m { a = update m.a (reg_of op) (offset (m.a (reg_of op)) (quick_of op)) })

  unfoldable pub subq_an : ℕ → M Io (Unit {0})
  subq_an op =
      modify (λ m. record m { a = update m.a (reg_of op) (below (m.a (reg_of op)) (quick_of op)) })

module _ {Io : Type 0} (devices : Devices Io) (mmu : Mmu Io) where
  unfoldable pub addq : Size → ℕ → M Io (Unit {0})
  addq w op = rewritten devices mmu w (λ v m. add w m.ccr v (quick_of op)) op

  unfoldable pub subq : Size → ℕ → M Io (Unit {0})
  subq w op = rewritten devices mmu w (λ v m. sub w m.ccr v (quick_of op)) op

  -- An operand and `cpu.D[DN(op)]`, the result in the register. The function takes the flags, the
  -- register and the operand.
  abbrev to_dn : Size → (Ccr → ℕ → ℕ → Alu) → ℕ → M Io (Unit {0})
  to_dn w f op = do
    v ← source devices mmu w op
    x ← low_of w (dn_of op)
    r ← computed (λ flags. f flags x v)
    store_d w (dn_of op) r

  unfoldable pub or_to_dn : Size → ℕ → M Io (Unit {0})
  or_to_dn w = to_dn w (λ f x v. or w f v x)

  unfoldable pub and_to_dn : Size → ℕ → M Io (Unit {0})
  and_to_dn w = to_dn w (λ f x v. and w f v x)

  unfoldable pub sub_to_dn : Size → ℕ → M Io (Unit {0})
  sub_to_dn w = to_dn w (sub w)

  unfoldable pub add_to_dn : Size → ℕ → M Io (Unit {0})
  add_to_dn w = to_dn w (add w)

  -- The same with the result in the operand's place. The function takes the flags, the operand and the
  -- register.
  abbrev to_ea : Size → (Ccr → ℕ → ℕ → Alu) → ℕ → M Io (Unit {0})
  to_ea w f op = rewritten devices mmu w (λ v m. f m.ccr v (wrap w (m.d (dn_of op)))) op

  unfoldable pub or_to_ea : Size → ℕ → M Io (Unit {0})
  or_to_ea w = to_ea w (λ f v x. or w f x v)

  unfoldable pub and_to_ea : Size → ℕ → M Io (Unit {0})
  and_to_ea w = to_ea w (λ f v x. and w f x v)

  -- eor_b, eor_w, eor_l.
  unfoldable pub eor : Size → ℕ → M Io (Unit {0})
  eor w = to_ea w (λ f v x. exclusive_or w f x v)

  unfoldable pub sub_to_ea : Size → ℕ → M Io (Unit {0})
  sub_to_ea w = to_ea w (sub w)

  unfoldable pub add_to_ea : Size → ℕ → M Io (Unit {0})
  add_to_ea w = to_ea w (add w)

  -- suba_w, suba_l, adda_w, adda_l: the register is read after the operand.
  unfoldable pub suba : Size → ℕ → M Io (Unit {0})
  suba w op = do
    v ← source devices mmu w op
    modify (λ m. record m { a = update m.a (dn_of op) (below (m.a (dn_of op)) (sign_extend w v)) })

  unfoldable pub adda : Size → ℕ → M Io (Unit {0})
  adda w op = do
    v ← source devices mmu w op
    modify (λ m. record m { a = update m.a (dn_of op) (offset (m.a (dn_of op)) (sign_extend w v)) })

  -- cmp_b, cmp_w, cmp_l.
  unfoldable pub cmp_dn : Size → ℕ → M Io (Unit {0})
  cmp_dn w op = do x ← low_of w (dn_of op); v ← source devices mmu w op; flagged (λ f. cmp w f x v)

  -- cmpa_w, cmpa_l; the arguments are taken from left to right.
  unfoldable pub cmpa : Size → ℕ → M Io (Unit {0})
  cmpa w op = do
    x ← gets (λ m. m.a (dn_of op))
    v ← source devices mmu w op
    flagged (λ f. cmp long f x (sign_extend w v))
