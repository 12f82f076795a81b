-- ===== src/Examples/Serial.antt =====
-- Concrete runs of the clock chip.
use newmacemu.Common.{◌≡◌, refl, true, false, [], ◌∷◌, arith}
use newmacemu.Rtc.{Rtc}
use newmacemu.Rtc.Serial.{send_bits}
use newmacemu.Rtc.Commands.{IsWaiting, send_bits-IsWaiting, send_two, written, send_two_lem}

abbrev fresh : Rtc
fresh = record {
  rtc_cmd = 0;
  rtc_cnt_w = 0;
  rtc_cnt_r = 0;
  rtc_lists = [];
  rtc_val = 0;
  xpram = λ j. j;
}

send_bits-IsWaiting_example : IsWaiting (send_bits 0 (true ∷ false ∷ []) fresh)
send_bits-IsWaiting_example =
    send_bits-IsWaiting 0 (true ∷ false ∷ []) fresh
      (record { count = omega arith; few = omega arith; a_write = refl })

-- An extended write of register 4 stores zero.
send_two_lem_example : send_two 0 0x38 0x10 fresh ≡ written fresh 4 0
send_two_lem_example =
    send_two_lem 0 0x38 0x10 fresh (omega arith) (omega arith) refl (refl, refl, refl)
