-- ===== src/Via/Adapters.antt =====
-- src/chip/via.cc: VIA1 and VIA2 as adapters, with the proofs that their pins change no direction and no
-- output register.
use newmacemu.Common.{
  ℕ, zero, suc, ◌*◌, ◌≡◌, refl, ap, Bool, true, false, not, ◌&&◌, bit, bit_or, to_num, ◌==◌,
  if◌then◌else◌, Bool-cases, inl, inr,
}
use newmacemu.Rtc.{send_rtc, recv_rtc}
use newmacemu.Via.{Via, sr_irq, irq_on, loop, put, Port}
use newmacemu.Via.Registers.{recieve_ca1, change}
use newmacemu.Via.Ports.{
  Peripherals, Board, interrupted, put_via1, put_via2, recieved, change_state, clocked,
  via1_write_pb, via1_read_pa, via1_write_pa, via1_read_pb, via2_read_pa, via2_read_pb,
  via2_write_pa,
}

module _ {E : Type 0} (chips : Peripherals E) (time : ℕ) where
  -- The output register and the directions of port B are the same.
  abbrev pub Keeps : Board E → Board E → Type 0
  Keeps b x = (x.via1.dirb ≡ b.via1.dirb) × (x.via1.orb ≡ b.via1.orb)

  either : (c : Bool) (b x y : Board E) → Keeps b x → Keeps b y → Keeps b (if c then x else y)
  either true b x y h k = h
  either false b x y h k = k

  interrupted-Keeps :
      (b : Board E) → Keeps b (irq_on (λ x. x.via1) put_via1 (interrupted chips time 1) sr_irq b)
  interrupted-Keeps b =
      let flagged : Board E = record b {
        via1 = record (b.via1) { flags = put b.via1.flags 2 true };
      } in
      either (b.via1.enables 2) b (interrupted chips time 1 flagged) flagged (refl, refl)
        (refl, refl)

  change_state-Keeps : (state : ℕ) (b : Board E) → Keeps b (change_state chips time state b)
  unfolding change_state
  change_state-Keeps state b =
      let b1 : Board E = record b { old_state = state } in
      let flagged = irq_on (λ x. x.via1) put_via1 (interrupted chips time 1) sr_irq b1 in
      let sent : Board E = record b1 { others = chips.transmit_adb state b.via1.sr b.others } in
      let got = recieved chips time state flagged in
      either (b.old_state == state) b b1
        (if not (b.via1.acr.sr_c == 0) && not (bit b.via1.acr.sr_c 2) then got else sent)
        (refl, refl)
        (either (not (b.via1.acr.sr_c == 0) && not (bit b.via1.acr.sr_c 2)) b got sent
          (interrupted-Keeps b1) (refl, refl))

  clocked-Keeps : (v : Bool) (b : Board E) → Keeps b (clocked chips time v b)
  clocked-Keeps v b =
      let sent : Board E = record b { rtc = send_rtc time b.rtc_line b.rtc } in
      let got : Board E = record b { rtc = (recv_rtc b.rtc).0; rtc_line = (recv_rtc b.rtc).1 } in
      either (b.rtc_clock && not v) b (if b.via1.dirb 0 then sent else got) b
        (either (b.via1.dirb 0) b sent got (refl, refl) (refl, refl)) (refl, refl)

  pub via1_write_pb-Keeps :
      (n : ℕ) (v : Bool) (b : Board E) → Keeps b (via1_write_pb chips time n v b)
  unfolding via1_write_pb
  via1_write_pb-Keeps n v b = elim (Bool-cases (n == 4)) [
    | inl is4 ↦ rw is4 (refl, refl)
    | inr not4 ↦ elim (Bool-cases (n == 5)) [
      | inl is5 ↦
          rw (not4, is5)
            (change_state-Keeps (bit_or (to_num v * 2) (to_num b.adb_state0))
              (record b { adb_state1 = v }))
      | inr not5 ↦ elim (Bool-cases (n == 2)) [
        | inl is2 ↦ rw (not4, not5, is2) (refl, refl)
        | inr not2 ↦ elim (Bool-cases (n == 1)) [
          | inl is1 ↦
              rw (not4, not5, not2, is1)
                (either b.rtc_enable b (clocked chips time v b) b (clocked-Keeps v b) (refl, refl))
          | inr not1 ↦
              rw (not4, not5, not2, not1)
                (either (n == 0) b (if b.rtc_enable then record b { rtc_line = v } else b) b
                  (either b.rtc_enable b (record b { rtc_line = v }) b (refl, refl) (refl, refl))
                  (refl, refl))
        ]
      ]
    ]
  ]

  pub same_a : (n : ℕ) (v : Bool) (b : Board E) → ((via1_write_pa chips time n v b).via1 ≡ b.via1)
  unfolding via1_write_pa
  same_a n v b = elim (Bool-cases (n == 4)) [
    | inl is4 ↦ elim (Bool-cases v) [ inl on ↦ rw (is4, on) refl | inr off ↦ rw (is4, off) refl ]
    | inr not4 ↦ elim (Bool-cases (n == 1)) [
      | inl is1 ↦ rw (not4, is1) refl
      | inr not1 ↦ rw (not4, not1) refl
    ]
  ]

  -- VIA1 as an adapter.
  abbrev pub via1_port : Port (Board E)
  via1_port = record {
    via = λ b. b.via1;
    put_via = put_via1;
    read_pa = via1_read_pa chips time;
    read_pb = via1_read_pb chips time;
    write_pa = via1_write_pa chips time;
    write_pb = via1_write_pb chips time;
    interrupt = interrupted chips time 1;
    via-put_via = λ v b. refl;
    keeps_via = λ b. refl;
    keeps_dirb = λ n v b. (via1_write_pb-Keeps n v b).0;
    keeps_orb = λ n v b. (via1_write_pb-Keeps n v b).1;
    keeps_dira = λ n v b. ap (λ (x : Via). x.dira) (same_a n v b);
    keeps_ora = λ n v b. ap (λ (x : Via). x.ora) (same_a n v b);
  }

  -- VIA2::writePB: pin 7 takes the inputs of VIA1 over, pin 2 turns the machine off.
  unfoldable pub via2_write_pb : ℕ → Bool → Board E → Board E
  unfolding recieve_ca1
  via2_write_pb n v b =
      if n == 7
      then recieve_ca1 via1_port b
      else if n == 2
      then (if v then b else record b { others = chips.do_poweroff b.others })
      else b

  latched_same :
      (n : ℕ) (b : Board E)
      → (loop
          (λ i s1.
            change via1_port (λ v. record v { ira = put v.ira i (via1_port.read_pa i s1) }) s1)
          n
          b).via2
        ≡ b.via2
  latched_same zero b = refl
  latched_same (suc n) b = latched_same n b

  pub same_b : (n : ℕ) (v : Bool) (b : Board E) → (via2_write_pb n v b).via2 ≡ b.via2
  unfolding via2_write_pb recieve_ca1
  same_b n v b = elim (Bool-cases (n == 7)) [
    | inl is7 ↦ elim (Bool-cases b.via1.acr.pa_latch) [
      | inl on ↦ rw (is7, on) (latched_same 8 b)
      | inr off ↦ rw (is7, off) refl
    ]
    | inr not7 ↦ elim (Bool-cases (n == 2)) [
      | inl is2 ↦ elim (Bool-cases v) [
        | inl on ↦ rw (not7, is2, on) refl
        | inr off ↦ rw (not7, is2, off) refl
      ]
      | inr not2 ↦ rw (not7, not2) refl
    ]
  ]

  pub still_a : (n : ℕ) (v : Bool) (b : Board E) → (via2_write_pa chips time n v b).via2 ≡ b.via2
  unfolding via2_write_pa
  still_a n v b = refl

  -- VIA2 as an adapter.
  abbrev pub via2_port : Port (Board E)
  via2_port = record {
    via = λ b. b.via2;
    put_via = put_via2;
    read_pa = via2_read_pa chips time;
    read_pb = via2_read_pb chips time;
    write_pa = via2_write_pa chips time;
    write_pb = via2_write_pb;
    interrupt = interrupted chips time 2;
    via-put_via = λ v b. refl;
    keeps_via = λ b. refl;
    keeps_dirb = λ n v b. ap (λ (x : Via). x.dirb) (same_b n v b);
    keeps_orb = λ n v b. ap (λ (x : Via). x.orb) (same_b n v b);
    keeps_dira = λ n v b. ap (λ (x : Via). x.dira) (still_a n v b);
    keeps_ora = λ n v b. ap (λ (x : Via). x.ora) (still_a n v b);
  }
