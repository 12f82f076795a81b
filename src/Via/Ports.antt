-- ===== src/Via/Ports.antt =====
-- src/chip/via.cc: VIA1 and VIA2, the two adapters of the board. VIA1's port B carries the lines of the
-- clock chip (src/chip/rtc.cc) and the state of the ADB.
use newmacemu.Common.{
  ℕ, ◌*◌, Bool, true, false, not, ◌&&◌, bit, bit_or, to_num, ltb, ◌==◌, if◌then◌else◌,
}
use newmacemu.Rtc.{Rtc, send_rtc, recv_rtc}
use newmacemu.Via.{Via, sr_irq, irq_on}

-- What the ports ask of the other chips, on their state E: scc_wait_req, transmitAdb, recieveAdb, do_irq
-- and do_poweroff.
pub record Peripherals (E : Type 0) : Type 0 where
  pub scc_wait_req : E → Bool
  pub transmit_adb : ℕ → ℕ → E → E
  pub recieve_adb : ℕ → E → ℕ × E
  pub do_irq : ℕ → E → E
  pub do_poweroff : E → E

-- VIA1 and VIA2 with their fields, rtcEnable, the clock chip, and the memory that VIA1 can change.
pub record Board (E : Type 0) : Type 0 where
  pub via1 : Via
  pub via2 : Via
  pub adb_state0 : Bool
  pub adb_state1 : Bool
  pub old_state : ℕ
  pub rtc_clock : Bool
  pub rtc_line : Bool
  pub apple_talk_debug : Bool
  pub apple_talk_debug_enabled : Bool
  pub rtc_enable : Bool
  pub rtc : Rtc
  pub ram : ℕ → ℕ
  pub rom : ℕ → ℕ
  pub rom_size : ℕ
  pub others : E

abbrev pub put_via1 : {E : Type 0} → Via → Board E → Board E
put_via1 v b = record b { via1 = v }

abbrev pub put_via2 : {E : Type 0} → Via → Board E → Board E
put_via2 v b = record b { via2 = v }

module _ {E : Type 0} (chips : Peripherals E) (time : ℕ) where
  abbrev pub interrupted : ℕ → Board E → Board E
  interrupted n b = record b { others = chips.do_irq n b.others }

  -- VIA1::readPA. MACHINE_CODE2 is {false, false, false, true}.
  unfoldable pub via1_read_pa : ℕ → Board E → Bool
  via1_read_pa n b =
      if n == 0
      then (if b.apple_talk_debug_enabled then b.apple_talk_debug else true)
      else if n == 6
      then true
      else if n == 7
      then chips.scc_wait_req b.others
      else false

  -- VIA1::writePA: pin 4 copies the ROM to the RAM.
  unfoldable pub via1_write_pa : ℕ → Bool → Board E → Board E
  via1_write_pa n v b =
      if n == 4
      then (if v then record b { ram = λ i. if ltb i b.rom_size then b.rom i else b.ram i } else b)
      else if n == 1
      then record b { apple_talk_debug = v }
      else b

  unfoldable pub via1_read_pb : ℕ → Board E → Bool
  via1_read_pb n b =
      if n == 5
      then b.adb_state1
      else if n == 4
      then b.adb_state0
      else if n == 3
      then true
      else if n == 0
      then b.rtc_line
      else false

  -- `sr = recieveAdb(s)`.
  abbrev pub recieved : ℕ → Board E → Board E
  recieved state b =
      let (v, others) = chips.recieve_adb state b.others in
      record b { via1 = record (b.via1) { sr = v }; others = others }

  -- VIA1::change_state.
  unfoldable pub change_state : ℕ → Board E → Board E
  change_state state b =
      let b1 : Board E = record b { old_state = state } in
      if b.old_state == state
      then b1
      else if not (b.via1.acr.sr_c == 0) && not (bit b.via1.acr.sr_c 2)
      then recieved state (irq_on (λ x. x.via1) put_via1 (interrupted 1) sr_irq b1)
      else record b1 { others = chips.transmit_adb state b.via1.sr b.others }

  -- The clock line of the clock chip, while it is enabled: a bit passes when the line falls.
  abbrev pub clocked : Bool → Board E → Board E
  clocked v b =
      let passed : Board E =
        if b.rtc_clock && not v
        then (if b.via1.dirb 0
            then record b { rtc = send_rtc time b.rtc_line b.rtc }
            else record b { rtc = (recv_rtc b.rtc).0; rtc_line = (recv_rtc b.rtc).1 })
        else b in
      record passed { rtc_clock = v }

  -- VIA1::writePB.
  unfoldable pub via1_write_pb : ℕ → Bool → Board E → Board E
  unfolding change_state
  via1_write_pb n v b =
      if n == 4
      then record b { adb_state0 = v }
      else if n == 5
      then change_state (bit_or (to_num v * 2) (to_num b.adb_state0)) (record b { adb_state1 = v })
      else if n == 2
      then record b { rtc_enable = not v }
      else if n == 1
      then (if b.rtc_enable then clocked v b else b)
      else if n == 0
      then (if b.rtc_enable then record b { rtc_line = v } else b)
      else b

  -- VIA2: NuBusInput is zero.
  unfoldable pub via2_read_pa : ℕ → Board E → Bool
  via2_read_pa n b = false

  unfoldable pub via2_read_pb : ℕ → Board E → Bool
  via2_read_pb n b = false

  unfoldable pub via2_write_pa : ℕ → Bool → Board E → Board E
  via2_write_pa n v b = b
