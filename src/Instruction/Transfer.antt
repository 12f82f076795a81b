-- ===== src/Instruction/Transfer.antt =====
-- src/cpu/op.cc: the instructions that move data: MOVEP, MOVES, MOVE, MOVEA, MOVEQ, MOVE16, LEA, EXG, the
-- moves of SR, CCR and USP, and CAS and CAS2.
use newmacemu.Common.{
  ℕ, ◌*◌, ◌/◌, ◌%◌, ◌^◌, bit_and, bit_or, bit, if◌then◌else◌, Size, byte, word, long, wrap,
  sign_extend,
}
use newmacemu.Ccr.{get_ccr, set_ccr}
use newmacemu.Compare.{cas, cas2}
use newmacemu.Machine.{M, bind, ◌>>=◌, pure, gets, modify, update}
use newmacemu.Bus.{Devices}
use newmacemu.Memory.{Mmu, offset}
use newmacemu.Memory.Access.{
  read_b, write_b, read_sb, read_sw, read_sl, write_sb, write_sw, write_sl, transfer16,
}
use newmacemu.Stack.{store}
use newmacemu.Fetch.{get_r, set_r, fetch, fetch32}
use newmacemu.Status.{get_sr, set_sr, priv_check}
use newmacemu.EffectiveAddress.{ea_write}
use newmacemu.Paging.Handlers.{guarded}
use newmacemu.Instruction.{
  reg_of, dn_of, moved, flagged, data_of, low_of, set_d, set_a, store_d, source, result, address,
  placed,
}

-- `extw >> 12 & 15`, `extw >> 6 & 7`, and `cpu.A[REG(op)]`.
abbrev pub rn_of : ℕ → ℕ
rn_of extw = bit_and (extw / 2 ^ 12) 15

abbrev du_of : ℕ → ℕ
du_of extw = bit_and (extw / 2 ^ 6) 7

abbrev base_of : {Io : Type 0} → ℕ → M Io ℕ
base_of op = gets (λ m. m.a (reg_of op))

module _ {Io : Type 0} where
  unfoldable pub moveq : ℕ → M Io (Unit {0})
  moveq op = do
    done ← set_d (dn_of op) (sign_extend byte (bit_and op 0xff))
    flagged (moved byte (bit_and op 0xff))

  unfoldable pub exg_dn : ℕ → M Io (Unit {0})
  exg_dn op = modify (λ m. record m {
    d = update (update m.d (dn_of op) (m.d (reg_of op))) (reg_of op) (m.d (dn_of op));
  })

  unfoldable pub exg_an : ℕ → M Io (Unit {0})
  exg_an op = modify (λ m. record m {
    a = update (update m.a (dn_of op) (m.a (reg_of op))) (reg_of op) (m.a (dn_of op));
  })

  unfoldable pub exg_da : ℕ → M Io (Unit {0})
  exg_da op = modify (λ m. record m {
    d = update m.d (dn_of op) (m.a (reg_of op));
    a = update m.a (reg_of op) (m.d (dn_of op));
  })

  unfoldable pub move_to_usp : ℕ → M Io (Unit {0})
  move_to_usp op =
      guarded (modify (λ m. record m { control = record (m.control) { usp = m.a (reg_of op) } }))

  unfoldable pub move_from_usp : ℕ → M Io (Unit {0})
  move_from_usp op = guarded (gets (λ m. m.control.usp) >>= λ v. set_a (reg_of op) v)

module _ {Io : Type 0} (devices : Devices Io) (mmu : Mmu Io) where
  -- `cpu.A[REG(op)] + disp`.
  abbrev movep_base : ℕ → M Io ℕ
  movep_base op = do
    disp ← fetch devices mmu
    base ← base_of op
    pure (offset base (sign_extend word disp))

  unfoldable pub movep_w_load : ℕ → M Io (Unit {0})
  movep_w_load op = do
    base ← movep_base op
    b0 ← read_b devices mmu base
    b1 ← read_b devices mmu (offset base 2)
    store_d word (dn_of op) (bit_or (b0 * 2 ^ 8) b1)

  unfoldable pub movep_l_load : ℕ → M Io (Unit {0})
  movep_l_load op = do
    base ← movep_base op
    b0 ← read_b devices mmu base
    b1 ← read_b devices mmu (offset base 2)
    b2 ← read_b devices mmu (offset base 4)
    b3 ← read_b devices mmu (offset base 6)
    set_d (dn_of op) (bit_or (bit_or (bit_or (b0 * 2 ^ 24) (b1 * 2 ^ 16)) (b2 * 2 ^ 8)) b3)

  -- `WriteB(base + k, cpu.D[DN(op)] >> s)`.
  abbrev write_part : ℕ → ℕ → ℕ → ℕ → M Io (Unit {0})
  write_part op base k s = do
    v ← data_of (dn_of op)
    write_b devices mmu (offset base k) (wrap byte (v / 2 ^ s))

  unfoldable pub movep_w_store : ℕ → M Io (Unit {0})
  movep_w_store op = do base ← movep_base op; high ← write_part op base 0 8; write_part op base 2 0

  unfoldable pub movep_l_store : ℕ → M Io (Unit {0})
  movep_l_store op = do
    base ← movep_base op
    p0 ← write_part op base 0 24
    p1 ← write_part op base 2 16
    p2 ← write_part op base 4 8
    write_part op base 6 0

  unfoldable pub cas_ea : Size → ℕ → M Io (Unit {0})
  cas_ea w op = do
    extw ← fetch devices mmu
    addr ← placed devices mmu w op
    du ← low_of w (du_of extw)
    cas devices mmu w addr (bit_and extw 7) du

  unfoldable pub cas2_ea : Size → M Io (Unit {0})
  cas2_ea w = do
    extw1 ← fetch devices mmu
    extw2 ← fetch devices mmu
    addr1 ← gets (get_r (rn_of extw1))
    addr2 ← gets (get_r (rn_of extw2))
    du1 ← low_of w (du_of extw1)
    du2 ← low_of w (du_of extw2)
    cas2 devices mmu w addr1 (bit_and extw1 7) du1 addr2 (bit_and extw2 7) du2

  -- ReadSB, ReadSW, ReadSL and WriteSB, WriteSW, WriteSL.
  abbrev read_other : Size → ℕ → M Io ℕ
  read_other byte = read_sb devices mmu
  read_other word = read_sw devices mmu
  read_other long = read_sl devices mmu

  abbrev write_other : Size → ℕ → ℕ → M Io (Unit {0})
  write_other byte = write_sb devices mmu
  write_other word = write_sw devices mmu
  write_other long = write_sl devices mmu

  abbrev moved_other : Size → ℕ → ℕ → M Io (Unit {0})
  moved_other w extw addr m =
      if bit extw 11
      then write_other w addr (wrap w (get_r (rn_of extw) m)) m
      else bind (read_other w addr m)
          λ v. modify (λ m1. set_r (rn_of extw) (store w (get_r (rn_of extw) m1) v) m1)

  unfoldable pub moves : Size → ℕ → M Io (Unit {0})
  moves w op =
      guarded
        (fetch devices mmu >>= λ extw. placed devices mmu w op >>= λ addr. moved_other w extw addr)

  -- move_b, move_w, move_l.
  unfoldable pub move : Size → ℕ → M Io (Unit {0})
  move w op = do
    v ← source devices mmu w op
    done ← flagged (moved w v)
    ea_write devices mmu w (bit_and (op / 2 ^ 6) 7) (dn_of op) v

  -- movea_w, movea_l.
  unfoldable pub movea : Size → ℕ → M Io (Unit {0})
  movea w op = do v ← source devices mmu w op; set_a (dn_of op) (sign_extend w v)

  unfoldable pub move_from_sr : ℕ → M Io (Unit {0})
  move_from_sr op = do allowed ← priv_check; sr ← gets get_sr; result devices mmu word op sr

  unfoldable pub move_from_ccr : ℕ → M Io (Unit {0})
  move_from_ccr op = do flags ← gets (λ m. get_ccr m.ccr); result devices mmu word op flags

  unfoldable pub move_to_ccr : ℕ → M Io (Unit {0})
  move_to_ccr op = do v ← source devices mmu word op; flagged (λ f. set_ccr (v % 2 ^ 8))

  unfoldable pub move_to_sr : ℕ → M Io (Unit {0})
  move_to_sr op = guarded (source devices mmu word op >>= λ v. modify (set_sr v))

  unfoldable pub lea : ℕ → M Io (Unit {0})
  lea op = do addr ← address devices mmu 0 op; set_a (dn_of op) addr

  -- `cpu.A[n] += 16`.
  abbrev forward : ℕ → M Io (Unit {0})
  forward n = modify (λ m. record m { a = update m.a n (offset (m.a n) 16) })

  unfoldable pub move16_base_imm : ℕ → M Io (Unit {0})
  move16_base_imm op = do
    imm ← fetch32 devices mmu
    base ← base_of op
    transfer16 devices mmu base imm

  unfoldable pub move16_imm_base : ℕ → M Io (Unit {0})
  move16_imm_base op = do
    imm ← fetch32 devices mmu
    base ← base_of op
    transfer16 devices mmu imm base

  unfoldable pub move16_inc_imm : ℕ → M Io (Unit {0})
  unfolding move16_base_imm
  move16_inc_imm op = do done ← move16_base_imm op; forward (reg_of op)

  unfoldable pub move16_imm_inc : ℕ → M Io (Unit {0})
  unfolding move16_imm_base
  move16_imm_inc op = do done ← move16_imm_base op; forward (reg_of op)

  unfoldable pub move16_inc_inc : ℕ → M Io (Unit {0})
  move16_inc_inc op = do
    extw ← fetch devices mmu
    src ← base_of op
    dst ← gets (λ m. m.a (bit_and (extw / 2 ^ 12) 7))
    done ← transfer16 devices mmu src dst
    other ← forward (bit_and (extw / 2 ^ 12) 7)
    forward (reg_of op)
