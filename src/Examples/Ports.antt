-- ===== src/Examples/Ports.antt =====
-- Concrete inputs of the interface adapters and RBV.
use newmacemu.Common.{◌+◌, ◌-◌, ◌*◌, ◌≡◌, ◌⊎◌, refl, arith, true, false, none, some, [], ◌∷◌, ◌++◌}
use newmacemu.Rtc.{Rtc, complete}
use newmacemu.Via.{Via}
use newmacemu.Via.Registers.{read, write}
use newmacemu.Via.Latches.{by_dirb, read-write_stored}
use newmacemu.Via.Flags.{timer1_lem}
use newmacemu.Via.Ports.{Peripherals, Board}
use newmacemu.Via.Adapters.{via1_port, via2_port}
use newmacemu.Via.Serial.{reversed, rtc_send, rtc_send_lem}
use newmacemu.Via.Rbv.{Rbv, rbv_read, rbv_write, seen, is_register, rbv_read-rbv_write}

-- The other chips do nothing.
abbrev no_chips : Peripherals (Unit {0})
no_chips = record {
  scc_wait_req = λ e. false;
  transmit_adb = λ state v e. e;
  recieve_adb = λ state e. (0, e);
  do_irq = λ n e. e;
  do_poweroff = λ e. e;
}

abbrev idle_via : Via
idle_via = record {
  timer1_base = 0;
  timer2_base = 0;
  timer1 = none;
  timer2 = none;
  timer1_cnt = 0;
  timer2_cnt = 0;
  timer1_latch = 0;
  timer2_latch = 0;
  acr = record {
    pb7_enable = false;
    t1_rep = false;
    t2_ctl = false;
    sr_c = 0;
    pb_latch = false;
    pa_latch = false;
  };
  pcr = record { cb2_ctl = 0; cb1_ctl = false; ca2_ctl = 0; ca1_ctl = false };
  sr = 0;
  ora = λ i. false;
  ira = λ i. false;
  orb = λ i. false;
  irb = λ i. false;
  dira = λ i. false;
  dirb = λ i. true;
  flags = λ i. false;
  enables = λ i. false;
}

abbrev idle_rtc : Rtc
idle_rtc = record {
  rtc_cmd = 0;
  rtc_cnt_w = 0;
  rtc_cnt_r = 0;
  rtc_lists = [];
  rtc_val = 0x81;
  xpram = λ j. 0;
}

-- The clock chip is enabled, and every pin of port B is an output.
abbrev idle_board : Board (Unit {0})
idle_board = record {
  via1 = idle_via;
  via2 = idle_via;
  adb_state0 = true;
  adb_state1 = true;
  old_state = 3;
  rtc_clock = true;
  rtc_line = false;
  apple_talk_debug = false;
  apple_talk_debug_enabled = false;
  rtc_enable = true;
  rtc = idle_rtc;
  ram = λ i. 0;
  rom = λ i. 0;
  rom_size = 0;
  others = tt;
}

abbrev no_rbv : Rbv
no_rbv = record {
  rbuf_b = 0;
  r_exp = 0;
  r_sifr = 0;
  r_ifr = λ i. false;
  r_mon_p = 0;
  r_chp_t = 0;
  r_sier = 0;
  r_ier = λ i. false;
}

read-write_stored_example :
    (read (via1_port no_chips 0) 1 2 (write (via1_port no_chips 0) 0 2 0xa5 idle_board)).0 ≡ 0xa5
read-write_stored_example =
    read-write_stored (via1_port no_chips 0) 2 0 1 0xa5 idle_board by_dirb (omega arith)

-- Timer 1 of VIA2, started at 5 with 0x1234 ticks to go, after 0x100 ticks.
abbrev started : Board (Unit {0})
started = write (via2_port no_chips 0) 5 5 0x12 (write (via2_port no_chips 0) 4 4 0x34 idle_board)

timer1_lem_example :
    ((read (via2_port no_chips 0) (5 + 0x100) 4 started).0
        + (read (via2_port no_chips 0) (5 + 0x100) 5 started).0 * 256
      ≡ 0x12 * 256 + 0x34 - 0x100)
    × ((read (via2_port no_chips 0) (5 + 0x100) 6 started).0 ≡ 0x34)
    × ((read (via2_port no_chips 0) (5 + 0x100) 7 started).0 ≡ 0x12)
timer1_lem_example =
    timer1_lem (via2_port no_chips 0) 4 5 0x100 0x34 0x12 idle_board (omega arith) (omega arith)
      (omega arith) (omega arith)

rtc_send_lem_example :
    (rtc_send no_chips 7 0x35 idle_board).rtc
    ≡ complete 7 (record idle_rtc { rtc_lists = [] ++ reversed 0x35 ∷ [] })
rtc_send_lem_example = rtc_send_lem no_chips 7 0x35 idle_board refl refl refl (refl, refl)

rbv_read-rbv_write_example :
    ((is_register 0x12 ≡ false) × (rbv_write 0x12 9 no_rbv ≡ none) × (rbv_read 0x12 no_rbv ≡ none))
    ⊎ ((is_register 0x12 ≡ true)
        × ((after : Rbv) × (rbv_write 0x12 9 no_rbv ≡ some after)
            × (rbv_read 0x12 after ≡ some (seen 0x12 9 no_rbv))))
rbv_read-rbv_write_example = rbv_read-rbv_write 0x12 9 no_rbv (omega arith)
