-- ===== src/Examples/Serials.antt =====
-- The serial controller at a concrete event and on concrete letters, the processor in
-- front of it, and the controller behind a board.
use newmacemu.Common.{arith, ℕ, ◌≡◌, refl, ◌+◌, false, true, [], ◌∷◌}
use newmacemu.Iop.{Iop, IopBase, iop_read, iop_write, seek, iop_read-iop_write}
use newmacemu.Scc.{SccCh, Scc, SccHost, ch_a_recv, scc_do_irq}
use newmacemu.Scc.Letters.{received, drained, drained-received}
use newmacemu.Scc.Interrupts.{IsHandedOn, scc_do_irq-IsHandedOn}

abbrev idle : SccCh
idle = record {
  in_buf = [];
  last_in_buf = 0;
  out_buf = [];
  w_r1 = 0;
  recv_param = 0;
  send_param1 = 0;
  send_param2 = 0;
  sync_letter = 0;
  misc_ctl = 0;
  clk_ctl = 0;
  baud_cnt = 0;
  misc_ctl2 = 0;
  ex_irq_ctl = 0;
  buf_status = 0;
  special_recv_status = 0;
  misc_status = 0;
  recv_first_letter = false;
  rr0_is_latched = false;
  v_scc_wr_req = true;
}

-- The rest of the program is the number of interrupts it got.
abbrev enabled : Scc ℕ
enabled = record {
  cur_reg = 0;
  ch_a = idle;
  ch_b = idle;
  int_vec = 0x20;
  irq_pending = 0;
  master_irq_ctl = 0xc8;
  ius = 0;
  world = 0;
}

abbrev counting : SccHost ℕ
counting = record { do_irq = λ i n. n + 1; send_port = λ b vs n. n }

scc_do_irq-IsHandedOn_example :
    IsHandedOn counting true enabled (scc_do_irq counting ch_a_recv enabled)
scc_do_irq-IsHandedOn_example = scc_do_irq-IsHandedOn counting ch_a_recv enabled

drained-received_example :
    drained counting false (7 ∷ 8 ∷ []) (received counting false (7 ∷ 8 ∷ []) enabled) ≡ 7 ∷ 8 ∷ []
drained-received_example = drained-received counting false (7 ∷ 8 ∷ []) enabled refl refl refl

abbrev stopped : Iop ℕ
stopped = record {
  program_counter = 0;
  ram_address = 0xffff;
  status = 2;
  mem = λ j. 0;
  running = false;
  base = 0;
}

abbrev plain : IopBase ℕ
plain = record { read_base = λ n b. (b, b); write_base = λ n v b. v }

iop_read-iop_write_example :
    ((iop_read plain 4
        (seek plain 0x12 0x34 (iop_write plain 4 7 (seek plain 0x12 0x34 stopped)))).0
      ≡ 7)
    × ((iop_read plain 0 (seek plain 0x12 0x34 stopped)).0 ≡ 0x12)
    × ((iop_read plain 1 (seek plain 0x12 0x34 stopped)).0 ≡ 0x34)
iop_read-iop_write_example =
    iop_read-iop_write plain 0x12 0x34 7 stopped (omega arith) (omega arith)
