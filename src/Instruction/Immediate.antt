-- ===== src/Instruction/Immediate.antt =====
-- src/cpu/op.cc: ORI, ANDI, EORI, SUBI, ADDI and CMPI, on operands, CCR and SR.
use newmacemu.Common.{ℕ, Size, byte, bit_and, bit_or, bit_xor}
use newmacemu.Ccr.{Ccr, Alu, get_ccr, set_ccr}
use newmacemu.Arithmetic.{add, sub, cmp}
use newmacemu.Logic.{and, or, exclusive_or}
use newmacemu.Machine.{M, ◌>>=◌, modify}
use newmacemu.Bus.{Devices}
use newmacemu.Memory.{Mmu}
use newmacemu.Fetch.{fetch}
use newmacemu.Status.{get_sr, set_sr}
use newmacemu.EffectiveAddress.{immediate}
use newmacemu.Paging.Handlers.{guarded}
use newmacemu.Instruction.{source, flagged, rewritten}

module _ {Io : Type 0} (devices : Devices Io) (mmu : Mmu Io) where
  -- The immediate operand, then the other, the result in its place.
  abbrev immediately : Size → (Ccr → ℕ → ℕ → Alu) → ℕ → M Io (Unit {0})
  immediately w f op = do
    v ← immediate devices mmu w
    rewritten devices mmu w (λ x m. f m.ccr x v) op

  unfoldable pub ori : Size → ℕ → M Io (Unit {0})
  ori w = immediately w (or w)

  unfoldable pub andi : Size → ℕ → M Io (Unit {0})
  andi w = immediately w (and w)

  unfoldable pub eori : Size → ℕ → M Io (Unit {0})
  eori w = immediately w (exclusive_or w)

  unfoldable pub subi : Size → ℕ → M Io (Unit {0})
  subi w = immediately w (sub w)

  unfoldable pub addi : Size → ℕ → M Io (Unit {0})
  addi w = immediately w (add w)

  unfoldable pub cmpi : Size → ℕ → M Io (Unit {0})
  cmpi w op = do
    v ← immediate devices mmu w
    x ← source devices mmu w op
    flagged (λ f. cmp w f x v)

  -- `SetCCR(cpu, GetCCR(cpu) | v)` and its like.
  abbrev to_ccr : (ℕ → ℕ → ℕ) → M Io (Unit {0})
  to_ccr f = do v ← immediate devices mmu byte; flagged (λ flags. set_ccr (f (get_ccr flags) v))

  unfoldable pub ori_b_ccr : M Io (Unit {0})
  ori_b_ccr = to_ccr bit_or

  unfoldable pub andi_b_ccr : M Io (Unit {0})
  andi_b_ccr = to_ccr bit_and

  unfoldable pub eori_b_ccr : M Io (Unit {0})
  eori_b_ccr = to_ccr bit_xor

  -- `PRIV_CHECK(); ... SetSR(cpu, GetSR(cpu) | v); TRACE_BRANCH();` and its like.
  abbrev to_sr : (ℕ → ℕ → ℕ) → M Io (Unit {0})
  to_sr f = guarded (fetch devices mmu >>= λ v. modify (λ m. set_sr (f (get_sr m) v) m))

  unfoldable pub ori_w_sr : M Io (Unit {0})
  ori_w_sr = to_sr bit_or

  unfoldable pub andi_w_sr : M Io (Unit {0})
  andi_w_sr = to_sr bit_and

  unfoldable pub eori_w_sr : M Io (Unit {0})
  eori_w_sr = to_sr bit_xor
