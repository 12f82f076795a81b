-- ===== src/EffectiveAddress.antt =====
-- src/cpu/m68k_ea.cc: the operands of an instruction by addressing mode and register.
pub mod Stacked
use newmacemu.Common.{
  ℕ, ◌+◌, ◌-◌, ◌*◌, ◌/◌, ◌%◌, ◌^◌, Bool, true, false, not, ◌&&◌, bit_and, bit, ◌==◌, if◌then◌else◌,
  Option, none, some, Size, byte, word, long, wrap, sign_extend,
}
use newmacemu.Machine.{
  Machine, illegal_op, Outcome, ok, M, bind, ◌>>=◌, ◌>>◌, pure, gets, modify, update,
}
use newmacemu.Bus.{Devices}
use newmacemu.Memory.{Mmu, offset}
use newmacemu.Memory.Access.{read_b, read_w, read_l, write_b, write_w, write_l}
use newmacemu.Stack.{below, store}
use newmacemu.Status.{raise}
use newmacemu.Fetch.{get_r, fetch, fetch32}

-- The index register of an extension word: its low word or the whole, scaled.
abbrev pub index_of : {Io : Type 0} → ℕ → Machine Io → ℕ
index_of next m =
    let rn : ℕ = get_r (bit_and (next / 2 ^ 12) 15) m in
    (if bit next 11 then rn else sign_extend word (rn % 2 ^ 16))
    * 2 ^ bit_and (next / 2 ^ 9) 3
    % 2 ^ 32

-- The bytes of an operand, two for a byte on the stack.
abbrev pub step : ℕ → ℕ → ℕ
step reg sz = if reg == 7 && sz == 1 then 2 else sz

abbrev pub bytes : Size → ℕ
bytes byte = 1
bytes word = 2
bytes long = 4

module _ {Io : Type 0} (devices : Devices Io) (mmu : Mmu Io) where
  -- A displacement: none, a sign-extended word, or a long word.
  abbrev displacement : ℕ → M Io ℕ
  displacement kind =
      if kind == 2
      then (fetch devices mmu >>= λ v. pure (sign_extend word v))
      else if kind == 3
      then fetch32 devices mmu
      else pure 0

  -- parseExt with a full extension word, after the base displacement.
  abbrev full_format : ℕ → ℕ → ℕ → ℕ → M Io ℕ
  full_format next base rn bd =
      if bit_and next 3 == 0
      then pure ((bd + base + rn) % 2 ^ 32)
      else displacement (bit_and next 3) >>= λ od.
          if not (bit next 2)
          then (read_l devices mmu ((bd + base + rn) % 2 ^ 32) >>= λ v. pure ((v + od) % 2 ^ 32))
          else read_l devices mmu ((bd + base) % 2 ^ 32) >>= λ v. pure ((v + rn + od) % 2 ^ 32)

  -- parseExt; the base is `cpu.A[reg]` or, for no register, `cpu.PC`.
  unfoldable pub parse_ext : Option ℕ → M Io ℕ
  unfolding fetch fetch32
  parse_ext reg m =
      let base0 : ℕ = base_of reg m in
      bind (fetch devices mmu m) λ next. gets (index_of next) >>= λ rn0.
      if not (bit next 8)
      then pure ((sign_extend byte (next % 2 ^ 8) + base0 + rn0) % 2 ^ 32)
      else displacement (bit_and (next / 2 ^ 4) 3) >>= λ bd.
          full_format next (if bit next 7 then 0 else base0) (if bit next 6 then 0 else rn0) bd
    where
      base_of : Option ℕ → Machine Io → ℕ
      base_of none m = m.pc
      base_of (some r) m = m.a r

  -- `cpu.A[reg] = v`.
  abbrev set_a : ℕ → ℕ → M Io (Unit {0})
  set_a reg v = modify (λ m. record m { a = update m.a reg v })

  -- The modes of type 7.
  abbrev special : ℕ → M Io ℕ
  special reg m =
      if reg == 0
      then fetch devices mmu m
      else if reg == 1
      then fetch32 devices mmu m
      else if reg == 2
      then (bind (fetch devices mmu m) λ d. pure ((m.pc + sign_extend word d) % 2 ^ 32))
      else if reg == 3
      then parse_ext none m
      else raise illegal_op m

  unfoldable pub ea_getaddr : ℕ → ℕ → ℕ → M Io ℕ
  unfolding fetch fetch32 parse_ext
  ea_getaddr type reg sz m =
      if type == 2
      then ok (m.a reg) m
      else if type == 3
      then (bind (set_a reg (offset (m.a reg) (step reg sz)) m) λ done. pure (m.a reg))
      else if type == 4
      then (bind (set_a reg (below (m.a reg) (step reg sz)) m)
          λ done. pure (below (m.a reg) (step reg sz)))
      else if type == 5
      then (bind (fetch devices mmu m) λ d. gets (λ m1. offset (m1.a reg) (sign_extend word d)))
      else if type == 6
      then parse_ext (some reg) m
      else if type == 7
      then special reg m
      else raise illegal_op m

  -- ReadB, ReadW, ReadL and WriteB, WriteW, WriteL.
  abbrev read_sized : Size → ℕ → M Io ℕ
  read_sized byte = read_b devices mmu
  read_sized word = read_w devices mmu
  read_sized long = read_l devices mmu

  abbrev write_sized : Size → ℕ → ℕ → M Io (Unit {0})
  write_sized byte = write_b devices mmu
  write_sized word = write_w devices mmu
  write_sized long = write_l devices mmu

  abbrev pub immediate : Size → M Io ℕ
  immediate byte = fetch devices mmu >>= λ v. pure (v % 2 ^ 8)
  immediate word = fetch devices mmu
  immediate long = fetch32 devices mmu

  -- The operand in memory; its address is left in `cpu.EA`.
  abbrev from_memory : Size → ℕ → ℕ → Bool → M Io ℕ
  from_memory w type reg lk = ea_getaddr type reg (bytes w) >>= λ addr.
      modify (λ m. record m { ea = addr; bus_lock = lk }) >>= λ done. read_sized w addr

  -- An address register as an operand; a byte has none.
  abbrev has_address_mode : Size → Bool
  has_address_mode byte = false
  has_address_mode _ = true

  -- ea_readB, ea_readW, ea_readL.
  unfoldable pub ea_read : Size → ℕ → ℕ → Bool → M Io ℕ
  unfolding ea_getaddr fetch fetch32
  ea_read w type reg lk m =
      if type == 0
      then ok (wrap w (m.d reg)) m
      else if type == 1 && has_address_mode w
      then ok (sign_extend w (m.a reg)) m
      else if type == 7 && reg == 4
      then immediate w m
      else from_memory w type reg lk m

  -- The operand in memory: under the bus lock the address is the one that was read.
  abbrev to_memory : Size → ℕ → ℕ → ℕ → M Io (Unit {0})
  to_memory w type reg v m =
      bind
        (if m.bus_lock
          then ok tt m
          else bind (ea_getaddr type reg (bytes w) m)
              λ addr. modify (λ m1. record m1 { ea = addr }))
        λ done. gets (λ m1. m1.ea) >>= λ addr.
          write_sized w addr v >>= λ written. modify (λ m1. record m1 { bus_lock = false })

  -- ea_writeB, ea_writeW, ea_writeL.
  unfoldable pub ea_write : Size → ℕ → ℕ → ℕ → M Io (Unit {0})
  unfolding ea_getaddr store
  ea_write w type reg v m =
      if type == 0
      then ok tt (record m { d = update m.d reg (store w (m.d reg) v) })
      else if type == 1 && has_address_mode w
      then ok tt (record m { a = update m.a reg (sign_extend w v) })
      else to_memory w type reg v m
