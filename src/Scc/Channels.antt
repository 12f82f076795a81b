-- ===== src/Scc/Channels.antt =====
-- src/chip/scc.cc: the methods of class SccCh, and those of class SCC but doIrq.
use newmacemu.Common.{
  ℕ, zero, suc, ◌||◌, ◌/◌, ◌^◌, Bool, true, false, not, ◌&&◌, bit_or, bit_and, bit, ◌==◌,
  if◌then◌else◌, Option, none, some, List, [], ◌∷◌, ◌++◌,
}
use newmacemu.Scc.{
  ch_b_send, ch_b_recv, ch_b_special, ch_a_send, ch_a_recv, ch_a_special, Scc, SccHost, ch,
  change_ch, scc_do_irq,
}

-- How many elements a buffer has, up to a limit: `size()` where it is compared with a number.
abbrev pub fewer : {A : Type 0} → List A → ℕ → Bool
fewer xs zero = false
fewer [] (suc n) = true
fewer (x ∷ xs) (suc n) = fewer xs n

abbrev pub is_empty : {A : Type 0} → List A → Bool
is_empty [] = true
is_empty (x ∷ xs) = false

module _ {W : Type 0} (host : SccHost W) where
  unfoldable pub next_recv_data : Bool → Scc W → ℕ × Scc W
  next_recv_data is_b s =
      let c = ch is_b s in
      elim c.in_buf [
        | [] ↦ (
          c.last_in_buf,
          (if bit c.w_r1 7 && not (bit c.w_r1 6) && bit c.w_r1 5
              then change_ch is_b (λ c1. record c1 { v_scc_wr_req = false }) s
              else s),
        )
        | v ∷ vs ↦ (v, change_ch is_b (λ c1. record c1 { in_buf = vs; last_in_buf = v }) s)
      ]

  unfoldable pub ch_reset : Bool → Scc W → Scc W
  ch_reset is_b s =
      record (change_ch is_b
        (λ c. record c {
          w_r1 = bit_and c.w_r1 0x24;
          recv_param = bit_and c.recv_param 0xfe;
          send_param1 = bit_or c.send_param1 3;
          send_param2 = bit_and c.send_param2 0x61;
          misc_ctl = 0;
          clk_ctl = 8;
          misc_ctl2 = bit_or (bit_and c.misc_ctl2 0xc0) 0x30;
          ex_irq_ctl = 0xf8;
          buf_status = bit_or (bit_and c.buf_status 0xb8) 0x44;
          special_recv_status = bit_or (bit_and c.special_recv_status 1) 6;
          misc_status = bit_and c.misc_status 0x40;
        })
        s) { master_irq_ctl = bit_or 0xc0 (bit_and s.master_irq_ctl 3) }

  unfoldable pub eom : Bool → Scc W → Scc W
  unfolding scc_do_irq
  eom is_b s = scc_do_irq host (if is_b then ch_b_special else ch_a_special) s

  abbrev pub irq_recv : Bool → Scc W → Scc W
  irq_recv is_b s = scc_do_irq host (if is_b then ch_b_recv else ch_a_recv) s

  -- The letter is kept, and the interrupt of its mode raised.
  abbrev pub keep_letter : Bool → ℕ → Scc W → Scc W
  keep_letter is_b v s =
      let mode = bit_and ((ch is_b s).w_r1 / 2 ^ 3) 3 in
      let first = (ch is_b s).recv_first_letter in
      let s1 =
        change_ch is_b
          (λ c. record c { in_buf = c.in_buf ++ v ∷ []; buf_status = bit_or c.buf_status 1 }) s in
      if mode == 2
      then (if first then s1 else irq_recv is_b s1)
      else if mode == 1
      then (let s2 = change_ch is_b (λ c. record c { recv_first_letter = true }) s1 in
          if first then s2 else if (ch is_b s2).recv_first_letter then s2 else irq_recv is_b s2)
      else s1

  unfoldable pub recv_data : Bool → ℕ → Scc W → Scc W
  recv_data is_b v s =
      let c = ch is_b s in
      let s1 =
        if bit c.w_r1 7 && is_empty c.in_buf
        then change_ch is_b (λ c1. record c1 { v_scc_wr_req = bit c.w_r1 6 }) s
        else s in
      if fewer c.in_buf 8
      then (if bit c.recv_param 1 && (bit_and c.sync_letter 0xff == v)
          then s1
          else keep_letter is_b v s1)
      else scc_do_irq host (if is_b then ch_b_special else ch_a_special) (
          change_ch is_b
            (λ c1. record c1 { special_recv_status = bit_or c1.special_recv_status 0x20 }) s1)

  unfoldable pub ch_read : Bool → ℕ → Scc W → Option (ℕ × Scc W)
  unfolding next_recv_data
  ch_read is_b addr s =
      let s1 = record s { cur_reg = 0 } in
      let c = ch is_b s in
      if addr == 0 || addr == 4
      then some (c.buf_status, s1)
      else if addr == 1 || addr == 5
      then some (c.special_recv_status, s1)
      else if addr == 2 || addr == 6
      then some (s.int_vec, s1)
      else if addr == 3 || addr == 7
      then some ((if is_b then 0 else s.irq_pending), s1)
      else if addr == 8
      then some (next_recv_data is_b s1)
      else if addr == 9 || addr == 13
      then some (c.baud_cnt / 2 ^ 8, s1)
      else if addr == 10 || addr == 14
      then some (c.misc_ctl, s1)
      else if addr == 11 || addr == 15
      then some (c.ex_irq_ctl, s1)
      else if addr == 12
      then some (bit_and c.baud_cnt 0xff, s1)
      else none

  -- sendPrinterPort or sendModemPort on the whole buffer.
  abbrev pub send_out : Bool → Scc W → Scc W
  send_out is_b s = record s { world = host.send_port is_b (ch is_b s).out_buf s.world }

  abbrev pub clear_out : Bool → Scc W → Scc W
  clear_out is_b = change_ch is_b (λ c. record c { out_buf = [] })

  unfoldable pub send_data_impl : Bool → ℕ → Scc W → Scc W
  send_data_impl is_b v s =
      let s1 = change_ch is_b (λ c. record c { out_buf = c.out_buf ++ v ∷ [] }) s in
      let full = not (fewer (ch is_b s1).out_buf 4) && fewer (ch is_b s1).out_buf 5 in
      let s2 =
        if full
        then clear_out is_b
            (scc_do_irq host (if is_b then ch_b_send else ch_a_send) (send_out is_b s1))
        else s1 in
      change_ch is_b (λ c. record c { v_scc_wr_req = true }) s2

  -- The commands of register 0: `v >> 3 & 7`.
  unfoldable pub command : Bool → ℕ → Scc W → Scc W
  unfolding scc_do_irq
  command is_b n s =
      if n == 1
      then record s { cur_reg = bit_or s.cur_reg 8 }
      else if n == 2
      then change_ch is_b (λ c. record c { rr0_is_latched = false }) s
      else if n == 3
      then change_ch is_b (λ c. record c { out_buf = []; buf_status = bit_or c.buf_status 0x40 }) s
      else if n == 4
      then (let s1 = change_ch is_b (λ c. record c { recv_first_letter = false }) s in
          if is_empty (ch is_b s).in_buf then s1 else irq_recv is_b s1)
      else if n == 5
      then clear_out is_b (send_out is_b s)
      else if n == 6
      then change_ch is_b (λ c. record c { special_recv_status = 0 }) s
      else if n == 7
      then (let i = s.ius in
          let i1 = bit_or i (i / 2) in
          let i2 = bit_or i1 (i1 / 2 ^ 2) in
          let i3 = bit_or i2 (i2 / 2 ^ 4) in record s { ius = bit_and (i3 / 2) i })
      else s

  unfoldable pub ch_write : Bool → ℕ → ℕ → Scc W → Option (Scc W)
  unfolding command send_data_impl
  ch_write is_b addr v s =
      let s1 = record s { cur_reg = 0 } in
      if addr == 0
      then (let s2 =
            if v / 2 ^ 6 == 3
            then change_ch is_b (λ c. record c { buf_status = bit_and c.buf_status 0xbf }) s1
            else s1 in
          some (command is_b (bit_and (v / 2 ^ 3) 7) (record s2 { cur_reg = bit_and v 3 })))
      else if addr == 1
      then some (
          change_ch is_b
            (λ c. record c { w_r1 = v; v_scc_wr_req = if bit v 7 then c.v_scc_wr_req else true })
            s1)
      else if addr == 2
      then some (record s1 { int_vec = v })
      else if addr == 3
      then some s1
      else if addr == 8
      then some (send_data_impl is_b v s1)
      else none

  unfoldable pub scc_read : ℕ → Scc W → Option (ℕ × Scc W)
  unfolding ch_read next_recv_data
  scc_read addr s =
      if addr == 0
      then ch_read true s.cur_reg s
      else if addr == 1
      then ch_read false s.cur_reg s
      else if addr == 2
      then some (next_recv_data true s)
      else if addr == 3
      then some (next_recv_data false s)
      else none

  unfoldable pub scc_write : ℕ → ℕ → Scc W → Option (Scc W)
  unfolding ch_write send_data_impl
  scc_write addr v s =
      if addr == 0
      then ch_write true s.cur_reg v s
      else if addr == 1
      then ch_write false s.cur_reg v s
      else if addr == 2
      then some (send_data_impl true v s)
      else if addr == 3
      then some (send_data_impl false v s)
      else none

  unfoldable pub scc_reset : Scc W → Scc W
  unfolding ch_reset
  scc_reset s = ch_reset true (ch_reset false s)
