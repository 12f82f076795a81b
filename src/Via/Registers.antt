-- ===== src/Via/Registers.antt =====
-- src/chip/via.cc: the methods of class VIA.
use newmacemu.Common.{
  ℕ, ◌+◌, ◌-◌, ◌*◌, ◌/◌, ◌%◌, ◌^◌, Bool, true, ◌&&◌, bit_or, bit_and, bit, to_num, ltb, ◌==◌,
  if◌then◌else◌, some,
}
use newmacemu.Via.{
  Acr, Pcr, Via, ViaIrq, ca2, ca1, sr_irq, cb2, cb1, timer2_irq, timer1_irq, irq_on, to_ulong, any,
  put, clear_flag, loop, Port,
}

-- What is left of a counter that was set at `base`: a uint64_t.
abbrev pub counted : ℕ → ℕ → ℕ → ℕ
counted cnt base now = (cnt + 2 ^ 64 - (now + 2 ^ 64 - base) % 2 ^ 64) % 2 ^ 64

-- Registers 11 and 12 as bytes.
unfoldable pub acr_byte : Acr → ℕ
acr_byte acr =
    let timers =
      bit_or (bit_or (to_num acr.pb7_enable * 2 ^ 7) (to_num acr.t1_rep * 2 ^ 6))
        (to_num acr.t2_ctl * 2 ^ 5) in
    bit_or (bit_or (bit_or timers (acr.sr_c * 2 ^ 2)) (to_num acr.pb_latch * 2))
      (to_num acr.pa_latch)

unfoldable pub set_acr : ℕ → Acr
set_acr v = record {
  pb7_enable = bit v 7;
  t1_rep = bit v 6;
  t2_ctl = bit v 5;
  sr_c = bit_and (v / 2 ^ 2) 7;
  pb_latch = bit v 1;
  pa_latch = bit v 0;
}

unfoldable pub pcr_byte : Pcr → ℕ
pcr_byte pcr =
    bit_or (bit_or (bit_or (pcr.cb2_ctl * 2 ^ 5) (to_num pcr.cb1_ctl * 2 ^ 4)) (pcr.ca2_ctl * 2))
      (to_num pcr.ca1_ctl)

unfoldable pub set_pcr : ℕ → Pcr
set_pcr v = record {
  cb2_ctl = bit_and (v / 2 ^ 5) 7;
  cb1_ctl = bit v 4;
  ca2_ctl = bit_and (v / 2) 7;
  ca1_ctl = bit v 0;
}

-- Register 14 written: the enables of the bits of v are set or cleared by its top bit.
unfoldable pub set_enables : ℕ → (ℕ → Bool) → ℕ → Bool
set_enables v enables i = if ltb i 7 && bit v i then bit v 7 else enables i

-- The low and the high byte of a latch replaced.
abbrev pub low_latch : ℕ → ℕ → ℕ
low_latch latch v = bit_or (bit_and latch 0xff00) v

abbrev pub high_latch : ℕ → ℕ → ℕ
high_latch latch v = bit_or (bit_and latch 0xff) (v * 2 ^ 8)

module _ {S : Type 0} (port : Port S) where
  abbrev pub change : (Via → Via) → S → S
  change f s = port.put_via (f (port.via s)) s

  abbrev pub clear_pair : ViaIrq → ViaIrq → S → S
  clear_pair i j s = change (λ v. clear_flag j (clear_flag i v)) s

  unfoldable pub irq : ViaIrq → S → S
  irq i s = irq_on port.via port.put_via port.interrupt i s

  unfoldable pub irq_off : ViaIrq → S → S
  irq_off i s = change (clear_flag i) s

  unfoldable pub recieve_cb1 : S → S
  recieve_cb1 s =
      if (port.via s).acr.pb_latch
      then loop
          (λ i s1.
            if (port.via s1).dirb i
            then s1
            else change (λ v. record v { irb = put v.irb i (port.read_pb i s1) }) s1)
          8 s
      else s

  unfoldable pub recieve_ca1 : S → S
  recieve_ca1 s =
      if (port.via s).acr.pa_latch
      then loop (λ i s1. change (λ v. record v { ira = put v.ira i (port.read_pa i s1) }) s1) 8 s
      else s

  unfoldable pub recieve_sr : S → S
  unfolding irq
  recieve_sr s = irq sr_irq s

  -- The callbacks of the timers, with the count of the next start or zero.
  unfoldable pub via_timer1_callback : ℕ → S → S × ℕ
  unfolding irq
  via_timer1_callback now s =
      let s1 = irq timer1_irq (change (λ v. record v { timer1_base = now }) s) in
      let s2 = if (port.via s1).acr.pb7_enable then port.write_pb 7 true s1 else s1 in
      (s2, if (port.via s2).acr.t1_rep then (port.via s2).timer1_cnt else 0)

  unfoldable pub via_timer2_callback : ℕ → S → S × ℕ
  unfolding irq
  via_timer2_callback now s = (irq timer2_irq (change (λ v. record v { timer2_base = now }) s), 0)

  -- A bit of register 0, of register 15 and of register 1.
  abbrev pub bit_b : S → ℕ → Bool
  bit_b s i =
      let v = port.via s in
      if v.dirb i then v.orb i else if v.acr.pb_latch then v.irb i else port.read_pb i s

  abbrev pub bit_a : S → ℕ → Bool
  bit_a s i = if (port.via s).dira i then (port.via s).ira i else port.read_pa i s

  abbrev pub input_a : S → ℕ → Bool
  input_a s i = if (port.via s).acr.pa_latch then (port.via s).ira i else port.read_pa i s

  -- VIA::read(n).
  unfoldable pub read : ℕ → ℕ → S → ℕ × S
  unfolding acr_byte pcr_byte
  read now n s =
      let v = port.via s in
      if n == 0
      then (let s1 = clear_pair cb1 cb2 s in (to_ulong 8 (bit_b s1), s1))
      else if n == 15
      then (to_ulong 8 (bit_a s), s)
      else if n == 1
      then (let s1 = clear_pair ca1 ca2 s in (to_ulong 8 (input_a s1), s1))
      else if n == 2
      then (to_ulong 8 v.dirb, s)
      else if n == 3
      then (to_ulong 8 v.dira, s)
      else if n == 4
      then (counted v.timer1_cnt v.timer1_base now % 2 ^ 8, change (clear_flag timer1_irq) s)
      else if n == 5
      then (counted v.timer1_cnt v.timer1_base now / 2 ^ 8 % 2 ^ 8, s)
      else if n == 6
      then (v.timer1_latch % 2 ^ 8, s)
      else if n == 7
      then (v.timer1_latch / 2 ^ 8 % 2 ^ 8, s)
      else if n == 8
      then (counted v.timer2_cnt v.timer2_base now % 2 ^ 8, change (clear_flag timer2_irq) s)
      else if n == 9
      then (counted v.timer2_cnt v.timer2_base now / 2 ^ 8 % 2 ^ 8, s)
      else if n == 10
      then (v.sr, change (clear_flag sr_irq) s)
      else if n == 11
      then (acr_byte v.acr, s)
      else if n == 12
      then (pcr_byte v.pcr, s)
      else if n == 13
      then (bit_or (bit_and (to_ulong 7 v.flags) 0x7f) (to_num (any 7 v.flags) * 2 ^ 7), s)
      else if n == 14
      then (bit_or 0x80 (to_ulong 7 v.enables), s)
      else (0, s)

  -- The loops of VIA::write on registers 0 and 1 and on the direction registers.
  abbrev pub write_bit_b : ℕ → ℕ → S → S
  write_bit_b value i s =
      if (port.via s).dirb i
      then port.write_pb i (bit value i) s
      else change (λ v. record v { orb = put v.orb i (bit value i) }) s

  abbrev pub write_bit_a : ℕ → ℕ → S → S
  write_bit_a value i s =
      if (port.via s).dira i
      then port.write_pa i (bit value i) s
      else change (λ v. record v { ora = put v.ora i (bit value i) }) s

  abbrev pub direct_b : ℕ → ℕ → S → S
  direct_b value i s =
      let s1 = change (λ v. record v { dirb = put v.dirb i (bit value i) }) s in
      if bit value i then port.write_pb i ((port.via s1).orb i) s1 else s1

  abbrev pub direct_a : ℕ → ℕ → S → S
  direct_a value i s =
      let s1 = change (λ v. record v { dira = put v.dira i (bit value i) }) s in
      if bit value i then port.write_pa i ((port.via s1).ora i) s1 else s1

  -- Registers 5 and 9: a counter is set from its latch and started.
  abbrev pub start1 : ℕ → ℕ → Via → Via
  start1 now value v =
      let latch = high_latch v.timer1_latch value in
      record (clear_flag timer1_irq v) {
        timer1_cnt = latch;
        timer1_latch = latch;
        timer1_base = now;
        timer1 = some latch;
      }

  abbrev start2 : ℕ → ℕ → Via → Via
  start2 now value v =
      let latch = high_latch v.timer2_latch value in
      record (clear_flag timer2_irq v) {
        timer2_cnt = latch;
        timer2_latch = latch;
        timer2_base = now;
        timer2 = some latch;
      }

  -- Register 10.
  abbrev shift_out : ℕ → Via → Via
  shift_out value v =
      let v1 = clear_flag sr_irq v in if bit v.acr.sr_c 2 then record v1 { sr = value } else v1

  -- VIA::write(n, v).
  unfoldable pub write : ℕ → ℕ → ℕ → S → S
  unfolding set_acr set_pcr set_enables
  write now n value s =
      if n == 0
      then loop (write_bit_b value) 8 (clear_pair cb1 cb2 s)
      else if n == 1
      then loop (write_bit_a value) 8 (clear_pair ca1 ca2 s)
      else if n == 15
      then loop (write_bit_a value) 8 s
      else if n == 2
      then loop (direct_b value) 8 s
      else if n == 3
      then loop (direct_a value) 8 s
      else if n == 4
      then change (λ v. record v { timer1_latch = low_latch v.timer1_latch value }) s
      else if n == 6
      then change (λ v. record v { timer1_latch = low_latch v.timer1_latch value }) s
      else if n == 7
      then change (λ v. record v { timer1_latch = high_latch v.timer1_latch value }) s
      else if n == 5
      then change (start1 now value) s
      else if n == 8
      then change (λ v. record v { timer2_latch = low_latch v.timer2_latch value }) s
      else if n == 9
      then change (start2 now value) s
      else if n == 10
      then change (shift_out value) s
      else if n == 11
      then change (λ v. record v { acr = set_acr value }) s
      else if n == 12
      then change (λ v. record v { pcr = set_pcr value }) s
      else if n == 13
      then change (λ v. record v { flags = bit value }) s
      else if n == 14
      then change (λ v. record v { enables = set_enables value v.enables }) s
      else s
