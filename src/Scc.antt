-- ===== src/Scc.antt =====
-- src/chip/scc.cc with include/chip/scc.hpp: the serial controller. `none` is a branch that the source
-- says is unreachable.
pub mod Interrupts
pub mod Channels
pub mod Letters
use newmacemu.Common.{
  ℕ, zero, suc, ◌||◌, ◌+◌, ◌-◌, ◌*◌, ◌/◌, ◌%◌, ◌^◌, Bool, true, false, not, ◌&&◌, bit_or, bit_and,
  bit, ltb, ◌==◌, if◌then◌else◌, Option, none, some, List, [], ◌∷◌, ◌++◌,
}

pub data SccIrq : Type 0 where
  ch_b_send ch_b_ex ch_b_recv ch_b_special ch_a_send ch_a_ex ch_a_recv ch_a_special : SccIrq

-- The value of the enumeration.
abbrev pub irq_number : SccIrq → ℕ
irq_number ch_b_send = 0
irq_number ch_b_ex = 1
irq_number ch_b_recv = 2
irq_number ch_b_special = 3
irq_number ch_a_send = 4
irq_number ch_a_ex = 5
irq_number ch_a_recv = 6
irq_number ch_a_special = 7

pub record SccCh : Type 0 where
  pub in_buf : List ℕ
  pub last_in_buf : ℕ
  pub out_buf : List ℕ
  pub w_r1 : ℕ
  pub recv_param : ℕ
  pub send_param1 : ℕ
  pub send_param2 : ℕ
  pub sync_letter : ℕ
  pub misc_ctl : ℕ
  pub clk_ctl : ℕ
  pub baud_cnt : ℕ
  pub misc_ctl2 : ℕ
  pub ex_irq_ctl : ℕ
  pub buf_status : ℕ
  pub special_recv_status : ℕ
  pub misc_status : ℕ
  pub recv_first_letter : Bool
  pub rr0_is_latched : Bool
  pub v_scc_wr_req : Bool

-- SCC, with the part of the program behind do_irq, sendModemPort and sendPrinterPort.
pub record Scc (W : Type 0) : Type 0 where
  pub cur_reg : ℕ
  pub ch_a : SccCh
  pub ch_b : SccCh
  pub int_vec : ℕ
  pub irq_pending : ℕ
  pub master_irq_ctl : ℕ
  pub ius : ℕ
  pub world : W

-- A channel is named by `isChB`.
pub record SccHost (W : Type 0) : Type 0 where
  pub do_irq : ℕ → W → W
  pub send_port : Bool → List ℕ → W → W

abbrev pub ch : {W : Type 0} → Bool → Scc W → SccCh
ch is_b s = if is_b then s.ch_b else s.ch_a

abbrev pub change_ch : {W : Type 0} → Bool → (SccCh → SccCh) → Scc W → Scc W
change_ch true f s = record s { ch_b = f s.ch_b }
change_ch false f s = record s { ch_a = f s.ch_a }

module _ {W : Type 0} (host : SccHost W) where
  -- A case of SCC::doIrq: with no other bit of `ius` set, `pending` is raised and `under` cleared there.
  abbrev pub raise : Bool → ℕ → ℕ → Scc W → Scc W
  raise free pending under s =
      if free
      then record s {
        irq_pending = bit_or s.irq_pending pending;
        ius = bit_and s.ius (0xff - under);
        world = host.do_irq 4 s.world;
      }
      else s

  abbrev pub alone : ℕ → Scc W → Bool
  alone mask s = bit_and s.ius (0xff - mask) == 0

  abbrev pub raise_irq : SccIrq → Scc W → Scc W
  raise_irq ch_a_recv s = raise true 0x20 0x20 s
  raise_irq ch_a_send s = raise (alone 0x10 s) 0x20 0x10 s
  raise_irq ch_a_ex s = raise (alone 0x08 s) 0x08 0x10 s
  raise_irq ch_a_special s = raise (alone 0x08 s) 0x08 0x10 s
  raise_irq ch_b_recv s = raise (alone 0x04 s) 0x04 0x04 s
  raise_irq ch_b_send s = raise (alone 0x02 s) 0x04 0x02 s
  raise_irq ch_b_ex s = raise (alone 0x01 s) 0x01 0x02 s
  raise_irq ch_b_special s = raise (alone 0x01 s) 0x01 0x02 s

  unfoldable pub scc_do_irq : SccIrq → Scc W → Scc W
  scc_do_irq which s =
      let s1 = record s { ius = 0x3f } in
      let vec_h : ℕ = if bit s.master_irq_ctl 4 then 4 else 1 in
      if bit s.master_irq_ctl 3
      then raise_irq which (record s1 {
        int_vec = bit_or (bit_and s.int_vec (0xff - 7 * 2 ^ vec_h)) (irq_number which * 2 ^ vec_h);
      })
      else s1
