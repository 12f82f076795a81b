-- ===== src/Via.antt =====
-- src/chip/via.cc and include/chip/via.hpp: a versatile interface adapter, over its ports. A bitset is
-- a function; `now` is what GetVIACounter returns.
pub mod Registers
pub mod Ports
pub mod Adapters
pub mod Bytes
pub mod Latches
pub mod Flags
pub mod Serial
pub mod Rbv
use newmacemu.Common.{
  ℕ, zero, suc, ◌+◌, ◌-◌, ◌*◌, ◌/◌, ◌%◌, ◌^◌, ◌≡◌, Bool, true, false, not, ◌&&◌, ◌||◌, bit_or,
  bit_and, bit, to_num, ltb, ◌==◌, if◌then◌else◌, Option, none, some,
}

-- ACR and PCR; SR_C and C2_CTL by their values.
pub record Acr : Type 0 where
  pub pb7_enable : Bool
  pub t1_rep : Bool
  pub t2_ctl : Bool
  pub sr_c : ℕ
  pub pb_latch : Bool
  pub pa_latch : Bool

pub record Pcr : Type 0 where
  pub cb2_ctl : ℕ
  pub cb1_ctl : Bool
  pub ca2_ctl : ℕ
  pub ca1_ctl : Bool

-- class VIA. `flags` is IF and `enables` IE; `timer1` and `timer2` hold the count that a timer of the
-- library was started with, if one was.
pub record Via : Type 0 where
  pub timer1_base : ℕ
  pub timer2_base : ℕ
  pub timer1 : Option ℕ
  pub timer2 : Option ℕ
  pub timer1_cnt : ℕ
  pub timer2_cnt : ℕ
  pub timer1_latch : ℕ
  pub timer2_latch : ℕ
  pub acr : Acr
  pub pcr : Pcr
  pub sr : ℕ
  pub ora : ℕ → Bool
  pub ira : ℕ → Bool
  pub orb : ℕ → Bool
  pub irb : ℕ → Bool
  pub dira : ℕ → Bool
  pub dirb : ℕ → Bool
  pub flags : ℕ → Bool
  pub enables : ℕ → Bool

-- VIA_IRQ.
pub data ViaIrq : Type 0 where
  ca2 ca1 sr_irq cb2 cb1 timer2_irq timer1_irq : ViaIrq

abbrev pub irq_index : ViaIrq → ℕ
irq_index ca2 = 0
irq_index ca1 = 1
irq_index sr_irq = 2
irq_index cb2 = 3
irq_index cb1 = 4
irq_index timer2_irq = 5
irq_index timer1_irq = 6

-- `to_ulong` of the low n bits.
abbrev pub to_ulong : ℕ → (ℕ → Bool) → ℕ
to_ulong zero f = 0
to_ulong (suc n) f = to_ulong n f + to_num (f n) * 2 ^ n

-- `any` of the low n bits.
abbrev pub any : ℕ → (ℕ → Bool) → Bool
any zero f = false
any (suc n) f = any n f || f n

-- A bitset with one bit changed.
abbrev pub put : (ℕ → Bool) → ℕ → Bool → ℕ → Bool
put f i v j = if j == i then v else f j

abbrev pub clear_flag : ViaIrq → Via → Via
clear_flag i s = record s { flags = put s.flags (irq_index i) false }

-- `for(int i = 0; i < n; ++i)`.
abbrev pub loop {ℓ} : {S : Type ℓ} → (ℕ → S → S) → ℕ → S → S
loop body zero s = s
loop body (suc n) s = body n (loop body n s)

-- VIA::irq, on a state that holds the adapter; `interrupt` is do_irq(irqNum()).
abbrev pub irq_on : {S : Type 0} → (S → Via) → (Via → S → S) → (S → S) → ViaIrq → S → S
irq_on via put_via interrupt i s =
    let v = via s in
    let s1 = put_via (record v { flags = put v.flags (irq_index i) true }) s in
    if (via s1).enables (irq_index i) then interrupt s1 else s1

-- The virtual functions of the class, on a state S that holds the adapter, and do_irq(irqNum()). A write
-- to a pin changes no output register of the adapter and no direction.
pub record Port (S : Type 0) : Type 1 where
  pub via : S → Via
  pub put_via : Via → S → S
  pub read_pa : ℕ → S → Bool
  pub read_pb : ℕ → S → Bool
  pub write_pa : ℕ → Bool → S → S
  pub write_pb : ℕ → Bool → S → S
  pub interrupt : S → S
  pub via-put_via : (v : Via) (s : S) → via (put_via v s) ≡ v
  pub keeps_via : (s : S) → via (interrupt s) ≡ via s
  pub keeps_dirb : (i : ℕ) (v : Bool) (s : S) → (via (write_pb i v s)).dirb ≡ (via s).dirb
  pub keeps_orb : (i : ℕ) (v : Bool) (s : S) → (via (write_pb i v s)).orb ≡ (via s).orb
  pub keeps_dira : (i : ℕ) (v : Bool) (s : S) → (via (write_pa i v s)).dira ≡ (via s).dira
  pub keeps_ora : (i : ℕ) (v : Bool) (s : S) → (via (write_pa i v s)).ora ≡ (via s).ora
