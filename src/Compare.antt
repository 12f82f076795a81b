-- ===== src/Compare.antt =====
-- src/cpu/arithmetic.cc, its last part: CAS_, CAS2_, CHK_ and CMP2_, with CHK_ERROR of
-- src/cpu/exception.cc. A register number is an index of `cpu.D`.
pub mod Swap
use newmacemu.Common.{
  ℕ, ◌+◌, ◌*◌, ◌%◌, ◌^◌, Bool, true, false, not, ◌&&◌, ◌||◌, ltb, leb, ◌==◌, if◌then◌else◌, Size,
  byte, word, long, wrap, signed, is_negative,
}
use newmacemu.Common.Int.{ℤ, pos, negsuc, pos_part, neg_part}
use newmacemu.Ccr.{Ccr}
use newmacemu.Arithmetic.{cmp}
use newmacemu.Machine.{
  Machine, chk_fail, Outcome, ok, raised, M, bind, ◌>>=◌, ◌>>◌, pure, gets, modify, update,
}
use newmacemu.Bus.{Devices}
use newmacemu.Memory.{Mmu, offset}
use newmacemu.Memory.Access.{read_b, read_w, read_l, write_b, write_w, write_l}
use newmacemu.Stack.{store, trace_branch}

-- CMP_ on `cpu`.
abbrev pub compared : {Io : Type 0} → Size → ℕ → ℕ → M Io (Unit {0})
compared s v reg = modify (λ m. record m { ccr = cmp s m.ccr v (wrap s (m.d reg)) })

-- STORE_ into a data register.
abbrev pub stored : {Io : Type 0} → Size → ℕ → ℕ → M Io (Unit {0})
stored s reg v = modify (λ m. record m { d = update m.d reg (store s (m.d reg) v) })

unfoldable pub chk : {Io : Type 0} → Size → ℕ → ℕ → M Io (Unit {0})
chk s v range m =
    if not (is_negative s v) && (not (is_negative s range) && leb v range)
    then ok tt m
    else raised chk_fail (record m { ccr = record (m.ccr) { n = is_negative s v } })

-- `a < b` on signed operands.
abbrev pub signed_lt : Size → ℕ → ℕ → Bool
signed_lt s a b =
    ltb (pos_part (signed s a) + neg_part (signed s b))
      (pos_part (signed s b) + neg_part (signed s a))

-- The last lines of the CMP2_ functions, with the order of the operands' type.
abbrev pub bounded : {Io : Type 0} → (ℕ → ℕ → Bool) → ℕ → ℕ → ℕ → M Io (Unit {0})
bounded less v low high = modify (λ m. record m {
  ccr = record (m.ccr) { z = low == v || high == v; c = less v low || less high v };
})

module _ {Io : Type 0} (devices : Devices Io) (mmu : Mmu Io) where
  -- ReadB, ReadW, ReadL, and WriteB, WriteW, WriteL.
  abbrev pub read : Size → ℕ → M Io ℕ
  read byte = read_b devices mmu
  read word = read_w devices mmu
  read long = read_l devices mmu

  abbrev pub write : Size → ℕ → ℕ → M Io (Unit {0})
  write byte = write_b devices mmu
  write word = write_w devices mmu
  write long = write_l devices mmu

  -- The two branches of CAS_; the new value goes to `cpu.EA`.
  abbrev exchange : Size → ℕ → ℕ → ℕ → M Io (Unit {0})
  exchange s v dc du m = if m.ccr.z then write s m.ea du m else stored s dc v m

  -- CAS_B, CAS_W, CAS_L.
  unfoldable pub cas : Size → ℕ → ℕ → ℕ → M Io (Unit {0})
  unfolding cmp store trace_branch
  cas s addr dc du = do
    v ← read s addr
    flags ← compared s v dc
    done ← exchange s v dc du
    trace_branch

  abbrev second : Size → ℕ → ℕ → M Io (Unit {0})
  second s v dc m = if m.ccr.z then compared s v dc m else ok tt m

  abbrev exchange2 : Size → ℕ → ℕ → ℕ → ℕ → ℕ → ℕ → ℕ → ℕ → M Io (Unit {0})
  exchange2 s addr1 v1 dc1 du1 addr2 v2 dc2 du2 m =
      if m.ccr.z
      then bind (write s addr1 du1 m) (λ done. write s addr2 du2)
      else bind (stored s dc1 v1 m) (λ done. stored s dc2 v2)

  -- CAS2_W, CAS2_L.
  unfoldable pub cas2 : Size → ℕ → ℕ → ℕ → ℕ → ℕ → ℕ → M Io (Unit {0})
  unfolding cmp store trace_branch
  cas2 s addr1 dc1 du1 addr2 dc2 du2 = do
    v1 ← read s addr1
    v2 ← read s addr2
    flags1 ← compared s v1 dc1
    flags2 ← second s v2 dc2
    done ← exchange2 s addr1 v1 dc1 du1 addr2 v2 dc2 du2
    trace_branch

  abbrev step_of : Size → ℕ
  step_of byte = 1
  step_of word = 2
  step_of long = 4

  -- CMP2_B, CMP2_W, CMP2_L.
  unfoldable pub cmp2 : Size → ℕ → ℕ → M Io (Unit {0})
  cmp2 s v addr = do
    low ← read s addr
    high ← read s (offset addr (step_of s))
    bounded ltb v low high

  -- CMP2_SB, CMP2_SW, CMP2_SL.
  unfoldable pub cmp2_signed : Size → ℕ → ℕ → M Io (Unit {0})
  cmp2_signed s v addr = do
    low ← read s addr
    high ← read s (offset addr (step_of s))
    bounded (signed_lt s) v low high
