-- ===== src/Machine.antt =====
-- The machine that the instructions run on: the part of `cpu` (include/68040.hpp) that memory access,
-- stack and branches use, the memory of src/common.cc and src/bus.cc, and the exceptions of
-- include/memory.hpp and include/exception.hpp.
use newmacemu.Common.{ℕ, Bool, false, ◌≡◌, ◌==◌, if◌then◌else◌, Option}
use newmacemu.Ccr.{Ccr}

-- Cpu::TTR_t: a transparent translation register.
pub record Ttr : Type 0 where
  pub logic_base : ℕ
  pub logic_mask : ℕ
  pub e : Bool
  pub s : ℕ
  pub u : ℕ
  pub cm : ℕ
  pub w : Bool

-- atc_entry (include/mmu.hpp): a line of an address translation cache.
pub record AtcEntry : Type 0 where
  pub laddr : ℕ
  pub v : Bool
  pub g : Bool
  pub paddr : ℕ
  pub pg_addr : ℕ
  pub u : ℕ
  pub s : Bool
  pub cm : ℕ
  pub m : Bool
  pub w : Bool
  pub r : Bool

-- The fields of `cpu` for the MMU, and the caches d_atc and i_atc by system and line. `jit_tables` says
-- which addresses have an entry in the table of compiled code.
pub record Paging : Type 0 where
  pub urp : ℕ
  pub srp : ℕ
  pub tcr_e : Bool
  pub tcr_p : Bool
  pub ittr : ℕ → Ttr
  pub dttr : ℕ → Ttr
  pub mmusr : ℕ
  pub d_atc : Bool → ℕ → AtcEntry
  pub i_atc : Bool → ℕ → AtcEntry
  pub jit_tables : ℕ → Bool

-- The fields of `cpu` for the supervisor, but S and T.
pub record Control : Type 0 where
  pub msp : ℕ
  pub isp : ℕ
  pub usp : ℕ
  pub i : ℕ
  pub m : Bool
  pub vbr : ℕ
  pub cacr_de : Bool
  pub cacr_ie : Bool

-- `Io` is the state of the devices behind `io`. `inturrupt` is the level of a pending interrupt, `none` for
-- the source's -1. `ram`, `rom` and `vram` are bytes by offset.
pub record Machine (Io : Type 0) : Type 0 where
  pub d : ℕ → ℕ
  pub a : ℕ → ℕ
  pub ea : ℕ
  pub pc : ℕ
  pub ccr : Ccr
  pub t : ℕ
  pub s : Bool
  pub sfc : ℕ
  pub dfc : ℕ
  pub ex_addr : ℕ
  pub oldpc : ℕ
  pub fault_ssw : ℕ
  pub bus_lock : Bool
  pub must_trace : Bool
  pub movem_run : Bool
  pub inturrupt : Option ℕ
  pub ram : ℕ → ℕ
  pub ram_size : ℕ
  pub rom : ℕ → ℕ
  pub rom_mask : ℕ
  pub vram : ℕ → ℕ
  pub io : Io
  pub paging : Paging
  pub control : Control

-- EXCEPTION_NUMBER, with one constructor for IRQ_LV1 to IRQ_LV7 and one for TRAP0 to TRAP15.
pub data ExceptionNumber : Type 0 where
  no_err reset afault addr_err illegal_op div0 chk_fail trapx priv_err trace aline fline format_err
        undef_irq unknown_irq fp_unorder fp_inex fp_div0 fp_unfl fp_operr fp_ovfl fp_snan
        fp_unimpl_type :
      ExceptionNumber
  irq_lv trap : ℕ → ExceptionNumber

-- A normal end, a thrown PTestError with its code (BusError is the code 0), a raised M68kException, or
-- the end of the emulator in double_fault.
pub data Outcome (Io A : Type 0) : Type 0 where
  ok : A → Machine Io → Outcome Io A
  ptest_error : ℕ → Machine Io → Outcome Io A
  raised : ExceptionNumber → Machine Io → Outcome Io A
  halted : Machine Io → Outcome Io A

abbrev pub M : Type 0 → Type 0 → Type 0
M Io A = Machine Io → Outcome Io A

-- `abbrev`, so that a chain computes wherever it stands.
abbrev pub bind : {Io A B : Type 0} → Outcome Io A → (A → M Io B) → Outcome Io B
bind (ok x m) f = f x m
bind (ptest_error code m) f = ptest_error code m
bind (raised n m) f = raised n m
bind (halted m) f = halted m

infixl 5 ◌>>=◌ ◌>>◌
abbrev pub ◌>>=◌ : {Io A B : Type 0} → M Io A → (A → M Io B) → M Io B
◌>>=◌ c f m = bind (c m) f

abbrev pub ◌>>◌ : {Io B : Type 0} → M Io (Unit {0}) → M Io B → M Io B
◌>>◌ c k m = bind (c m) (λ _. k)

abbrev pub pure : {Io A : Type 0} → A → M Io A
pure x m = ok x m

-- A read of the state, and a change of it.
abbrev pub gets : {Io A : Type 0} → (Machine Io → A) → M Io A
gets f m = ok (f m) m

abbrev pub modify : {Io : Type 0} → (Machine Io → Machine Io) → M Io (Unit {0})
modify f m = ok tt (f m)

-- Neither transparent translation nor page tables are enabled.
pub record IsOff (p : Paging) : Type 0 where
  pub no_tables : p.tcr_e ≡ false
  pub no_code_window : (k : ℕ) → (p.ittr k).e ≡ false
  pub no_data_window : (k : ℕ) → (p.dttr k).e ≡ false

-- An array with one element changed.
abbrev pub update : (ℕ → ℕ) → ℕ → ℕ → ℕ → ℕ
update f i v j = if j == i then v else f j
