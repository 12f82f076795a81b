-- ===== src/Instruction/Unary.antt =====
-- src/cpu/op.cc: the instructions of one operand: NEGX, CLR, NEG, NOT, NBCD, TST, TAS, SWAP and EXT.
use newmacemu.Common.{
  ℕ, ◌*◌, ◌/◌, ◌%◌, ◌^◌, true, false, bit_or, Size, byte, word, long, wrap, sign_extend,
}
use newmacemu.Ccr.{test}
use newmacemu.Arithmetic.{neg, negx}
use newmacemu.Logic.{complement}
use newmacemu.Bcd.{nbcd}
use newmacemu.Machine.{M, ◌>>=◌, gets}
use newmacemu.Bus.{Devices}
use newmacemu.Memory.{Mmu}
use newmacemu.Instruction.{
  reg_of, moved, flagged, low_of, set_d, store_d, source, locked, result, rewritten,
}

module _ {Io : Type 0} where
  unfoldable pub swap_halves : ℕ → M Io (Unit {0})
  swap_halves op = do
    v ← gets (λ m. bit_or (m.d (reg_of op) / 2 ^ 16) (m.d (reg_of op) * 2 ^ 16 % 2 ^ 32))
    done ← flagged (moved long v)
    set_d (reg_of op) v

  unfoldable pub ext_w : ℕ → M Io (Unit {0})
  ext_w op = do
    low ← low_of byte (reg_of op)
    done ← flagged (moved word (wrap word (sign_extend byte low)))
    store_d word (reg_of op) (wrap word (sign_extend byte low))

  unfoldable pub ext_l : ℕ → M Io (Unit {0})
  ext_l op = do
    low ← low_of word (reg_of op)
    done ← flagged (moved long (sign_extend word low))
    store_d long (reg_of op) (sign_extend word low)

  unfoldable pub extb_l : ℕ → M Io (Unit {0})
  extb_l op = do
    low ← low_of byte (reg_of op)
    done ← flagged (moved long (sign_extend byte low))
    set_d (reg_of op) (sign_extend byte low)

module _ {Io : Type 0} (devices : Devices Io) (mmu : Mmu Io) where
  unfoldable pub negx_ea : Size → ℕ → M Io (Unit {0})
  negx_ea w = rewritten devices mmu w (λ v m. negx w m.ccr v m.ccr.x)

  unfoldable pub clr_ea : Size → ℕ → M Io (Unit {0})
  clr_ea w op = do
    done ← flagged (λ f. record f { n = false; v = false; c = false; z = true })
    result devices mmu w op 0

  unfoldable pub neg_ea : Size → ℕ → M Io (Unit {0})
  neg_ea w = rewritten devices mmu w (λ v m. neg w m.ccr v)

  unfoldable pub not_ea : Size → ℕ → M Io (Unit {0})
  not_ea w = rewritten devices mmu w (λ v m. complement w m.ccr v)

  unfoldable pub nbcd_ea : ℕ → M Io (Unit {0})
  nbcd_ea = rewritten devices mmu byte (λ v m. nbcd m.ccr v m.ccr.x)

  unfoldable pub tst_ea : Size → ℕ → M Io (Unit {0})
  tst_ea w op = do v ← source devices mmu w op; flagged (moved w v)

  -- V and C stay as they were.
  unfoldable pub tas_ea : ℕ → M Io (Unit {0})
  tas_ea op = do
    v ← locked devices mmu byte op
    done ← flagged (test byte v)
    result devices mmu byte op (bit_or v 0x80)
