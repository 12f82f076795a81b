-- ===== src/Rtc/Commands.antt =====
-- The commands of the clock chip: which bytes wait, what a write followed by a read gives, and what
-- becomes of the extended commands.
use newmacemu.Common.{
  ℕ, ◌+◌, ◌%◌, ◌≤◌, ◌<◌, ◌≡◌, refl, ap, ◌∙◌, Bool, true, false, List, [], ◌∷◌, ◌++◌, arith, bit_and,
  bit, ◌==◌, if◌then◌else◌, length, get_or, Bool-cases, inl, inr,
}
use newmacemu.Common.Bits.{bit-bit_and}
use newmacemu.Rtc.{
  Rtc, send_rtc, complete, do_rtc, xpram_read, is_extended_read, is_extended_write, extended_reg,
  plain_reg,
}
use newmacemu.Rtc.Serial.{byte_bits, send_bits, send_bits_lem, recv_bits, recv_bits_lem}

-- An extended read has its top bit set, an extended write has not.
masked_top : (c : ℕ) → bit (bit_and c 0xb8) 7 ≡ bit c 7
masked_top c = bit-bit_and 7 c 0xb8 ∙ ground arith

extended_read_top : (c : ℕ) → is_extended_read c ≡ true → bit c 7 ≡ true
extended_read_top c h = ground (arith, masked_top c)

extended_write_top : (c : ℕ) → is_extended_write c ≡ true → bit c 7 ≡ false
extended_write_top c h = ground (arith, masked_top c)

-- Between bits at most one byte waits, and it is not a read command.
pub record IsWaiting (st : Rtc) : Type 0 where
  pub count : st.rtc_cnt_w < 8
  pub few : length st.rtc_lists ≤ 1
  pub a_write : bit (get_or st.rtc_lists 0 0) 7 ≡ false

complete-IsWaiting :
    (now b cnt : ℕ) (l : List ℕ) (st : Rtc)
    → cnt < 8
    → length l ≤ 1
    → bit (get_or l 0 0) 7 ≡ false
    → IsWaiting (complete now (record st { rtc_cmd = 0; rtc_cnt_w = cnt; rtc_lists = l ++ b ∷ [] }))
unfolding complete
complete-IsWaiting now b cnt [] st small few top =
    ground (arith, extended_read_top b, extended_write_top b)
complete-IsWaiting now b cnt (c ∷ []) st small few top = ground (arith, extended_read_top c)
complete-IsWaiting now b cnt (c ∷ d ∷ l) st small few top = absurd (omega arith)

send_rtc-IsWaiting : (now : ℕ) (v : Bool) (st : Rtc) → IsWaiting st → IsWaiting (send_rtc now v st)
unfolding send_rtc
send_rtc-IsWaiting now v st w = elim (Bool-cases ((st.rtc_cnt_w + 1) % 8 == 0)) [
  | inl whole ↦ rw whole (
      complete-IsWaiting now _ ((st.rtc_cnt_w + 1) % 8) st.rtc_lists st (omega arith) w.few
        w.a_write)
  | inr part ↦ rw part (record { count = omega arith; few = w.few; a_write = w.a_write })
]

-- If at most one byte waits for the rest of a command, it is no read command, and the bit counter is
-- below eight, then so it is after any sequence of bits sent.
pub send_bits-IsWaiting :
    (now : ℕ) (vs : List Bool) (st : Rtc) → IsWaiting st → IsWaiting (send_bits now vs st)
send_bits-IsWaiting now [] st w = w
send_bits-IsWaiting now (v ∷ vs) st w =
    send_bits-IsWaiting now vs (send_rtc now v st) (send_rtc-IsWaiting now v st w)

-- A chip that waits for a command.
abbrev pub IsFree : Rtc → Type 0
IsFree st = (st.rtc_cmd ≡ 0) × (st.rtc_cnt_w ≡ 0) × (st.rtc_lists ≡ [])

-- Two bytes in a row.
abbrev pub send_two : ℕ → ℕ → ℕ → Rtc → Rtc
send_two now a b st = send_bits now (byte_bits b) (send_bits now (byte_bits a) st)

-- The state once both bytes of a write are in.
abbrev pub written : Rtc → ℕ → ℕ → Rtc
written st reg v = record st {
  rtc_cmd = 0;
  rtc_cnt_w = 0;
  rtc_lists = [];
  xpram = λ j. if j == reg then v else st.xpram j;
}

not_read : (c : ℕ) → bit c 7 ≡ false → is_extended_read c ≡ false
not_read c top = ground (arith, extended_read_top c)

not_write : (c : ℕ) → bit c 7 ≡ true → is_extended_write c ≡ false
not_write c top = ground (arith, extended_write_top c)

-- A command byte that is no read waits for the second byte.
first_byte :
    (now a : ℕ) (st : Rtc)
    → bit a 7 ≡ false
    → complete now (record st { rtc_cmd = 0; rtc_cnt_w = 0; rtc_lists = a ∷ [] })
      ≡ record st { rtc_cmd = 0; rtc_cnt_w = 0; rtc_lists = a ∷ [] }
unfolding complete
first_byte now a st top =
    let plain : is_extended_read a ≡ false = not_read a top in
    elim (Bool-cases (is_extended_write a)) [
      | inl wr ↦ rw (plain, wr, top)
      | inr other ↦ rw (plain, other, top)
    ]

second_byte :
    (now a b : ℕ) (st : Rtc)
    → bit a 7 ≡ false
    → complete now (record st { rtc_cmd = 0; rtc_cnt_w = 0; rtc_lists = a ∷ b ∷ [] }) ≡ (
        if is_extended_write a then written st (extended_reg a b) 0 else written st (plain_reg a) b)
unfolding complete do_rtc
second_byte now a b st top =
    let plain : is_extended_read a ≡ false = not_read a top in
    elim (Bool-cases (is_extended_write a)) [
      | inl wr ↦ rw (plain, wr, top)
      | inr other ↦ rw (plain, other, top)
    ]

-- A command byte that is no read and a second byte, sent bit by bit to a free chip, leave it free with
-- one register written: a plain command stores the second byte; an extended write stores zero in the
-- register that the two bytes name, and does not wait for its third byte.
pub send_two_lem :
    (now a b : ℕ) (st : Rtc)
    → a < 256
    → b < 256
    → bit a 7 ≡ false
    → IsFree st
    → send_two now a b st ≡ (
        if is_extended_write a then written st (extended_reg a b) 0 else written st (plain_reg a) b)
send_two_lem now a b st p q top free =
    ap (send_bits now (byte_bits b)) (
      send_bits_lem now a st p (free.0, free.1)
      ∙ ap (λ l. complete now (record st { rtc_cmd = 0; rtc_cnt_w = 0; rtc_lists = l ++ a ∷ [] }))
          free.2
      ∙ first_byte now a st top)
    ∙ send_bits_lem now b (record st { rtc_cmd = 0; rtc_cnt_w = 0; rtc_lists = a ∷ [] }) q
        (refl, refl)
    ∙ second_byte now a b st top

-- A plain read command, sent to a free chip, leaves it free, with the register's value as the answer
-- and its first bit as the next to be read.
pub read_command :
    (now r : ℕ) (st : Rtc)
    → r < 256
    → bit r 7 ≡ true
    → is_extended_read r ≡ false
    → IsFree st
    → send_bits now (byte_bits r) st ≡ record st {
      rtc_cmd = 0;
      rtc_cnt_w = 0;
      rtc_cnt_r = 0;
      rtc_lists = [];
      rtc_val = xpram_read now st (plain_reg r);
    }
unfolding complete do_rtc xpram_read
read_command now r st p top plain free =
    let other : is_extended_write r ≡ false = not_write r top in
    send_bits_lem now r st p (free.0, free.1)
    ∙ ap (λ l. complete now (record st { rtc_cmd = 0; rtc_cnt_w = 0; rtc_lists = l ++ r ∷ [] }))
        free.2
    ∙ rw (plain, other, top)

stored :
    (now reg reg' v : ℕ) (st : Rtc)
    → reg' ≡ reg
    → 8 ≤ reg
    → xpram_read now (written st reg v) reg' ≡ v
unfolding xpram_read
stored now reg reg' v st same above = ground arith

-- After a plain write command and its byte, sent to a free chip, a plain read command of the same
-- register returns the bits of that byte, if the register is not one of the eight of the clock.
pub read-write :
    (now a b r : ℕ) (st : Rtc)
    → a < 256
    → b < 256
    → r < 256
    → bit a 7 ≡ false
    → is_extended_write a ≡ false
    → bit r 7 ≡ true
    → is_extended_read r ≡ false
    → plain_reg r ≡ plain_reg a
    → 8 ≤ plain_reg a
    → IsFree st
    → recv_bits 8 (send_bits now (byte_bits r) (send_two now a b st)) ≡ byte_bits b
read-write now a b r st p q t top plain rtop rplain same above free =
    let st' : Rtc = written st (plain_reg a) b in
    ap (λ s. recv_bits 8 (send_bits now (byte_bits r) s))
      (send_two_lem now a b st p q top free ∙ rw plain)
    ∙ ap (recv_bits 8) (read_command now r st' t rtop rplain (refl, refl, refl))
    ∙ recv_bits_lem _ (omega arith)
    ∙ ap byte_bits (stored now (plain_reg a) (plain_reg r) b st same above)
