-- ===== src/Instruction/Shifts.antt =====
-- src/cpu/op.cc: the shifts and rotations, of a data register and of a word in memory.
use newmacemu.Common.{ℕ, Option, some, bit_and, Size, word}
use newmacemu.Ccr.{Ccr, Alu}
use newmacemu.Shift.{asr, asl, lsr, lsl}
use newmacemu.Rotate.{ror, rol, roxr, roxl}
use newmacemu.Machine.{Machine, M, ◌>>=◌, gets}
use newmacemu.Bus.{Devices}
use newmacemu.Memory.{Mmu}
use newmacemu.Instruction.{
  reg_of, dn_of, quick_of, Count, by_immediate, by_register, defined, low_of, store_d, locked,
  result,
}

-- AS, LS, ROX and RO.
pub data Kind : Type 0 where
  arithmetic logical extended plain : Kind

-- The functions of bits.cc on an operand and a count; X is the one of `cpu`.
unfoldable pub shift_right : Kind → Size → Ccr → ℕ → ℕ → Option Alu
shift_right arithmetic w f v c = some (asr w f v c)
shift_right logical w f v c = some (lsr w f v c)
shift_right extended w f v c = roxr w f v c f.x
shift_right plain w f v c = ror w f v c

unfoldable pub shift_left : Kind → Size → Ccr → ℕ → ℕ → Option Alu
shift_left arithmetic w f v c = some (asl w f v c)
shift_left logical w f v c = some (lsl w f v c)
shift_left extended w f v c = roxl w f v c f.x
shift_left plain w f v c = rol w f v c

module _ {Io : Type 0} where
  -- `DN(op) ? DN(op) : 8`, or `cpu.D[DN(op)] & 63`.
  abbrev pub count_of : Count → ℕ → Machine Io → ℕ
  count_of by_immediate op m = quick_of op
  count_of by_register op m = bit_and (m.d (dn_of op)) 63

  abbrev shifted_d : (Size → Ccr → ℕ → ℕ → Option Alu) → Size → Count → ℕ → M Io (Unit {0})
  shifted_d f w count op = do
    v ← low_of w (reg_of op)
    c ← gets (count_of count op)
    r ← λ m. defined (f w m.ccr v c) m
    store_d w (reg_of op) r

  -- asr_b_i to ror_l_r.
  unfoldable pub right_d : Kind → Size → Count → ℕ → M Io (Unit {0})
  unfolding shift_right
  right_d kind = shifted_d (shift_right kind)

  -- asl_b_i to rol_l_r.
  unfoldable pub left_d : Kind → Size → Count → ℕ → M Io (Unit {0})
  unfolding shift_left
  left_d kind = shifted_d (shift_left kind)

module _ {Io : Type 0} (devices : Devices Io) (mmu : Mmu Io) where
  abbrev shifted_ea : (Size → Ccr → ℕ → ℕ → Option Alu) → ℕ → M Io (Unit {0})
  shifted_ea f op = do
    v ← locked devices mmu word op
    r ← λ m. defined (f word m.ccr v 1) m
    result devices mmu word op r

  -- asr_ea, lsr_ea, roxr_ea, ror_ea.
  unfoldable pub right_ea : Kind → ℕ → M Io (Unit {0})
  unfolding shift_right
  right_ea kind = shifted_ea (shift_right kind)

  -- asl_ea, lsl_ea, roxl_ea, rol_ea.
  unfoldable pub left_ea : Kind → ℕ → M Io (Unit {0})
  unfolding shift_left
  left_ea kind = shifted_ea (shift_left kind)
