-- ===== src/Via/Serial.antt =====
-- src/librom/libvia.cc: rtc_send and rtc_recv, which drive the clock chip over VIA1's port B.
use newmacemu.Common.{
  ℕ, zero, suc, ◌-◌, ◌*◌, ◌%◌, ◌^◌, ◌<◌, ◌≡◌, refl, ap, ◌∙◌, Bool, true, false, List, [], ◌∷◌, ◌++◌,
  bit, bit_or, to_num, ◌==◌, ==_iff,
}
use newmacemu.Common.Table.{passes-each}
use newmacemu.Rtc.{send_rtc, recv_rtc, complete}
use newmacemu.Rtc.Serial.{byte_bits, send_bits, send_bits_lem, recv_bits, recv_bits_lem, IsIdle}
use newmacemu.Via.{put, to_ulong}
use newmacemu.Via.Bytes.{bit-to_ulong, to_ulong-lt}
use newmacemu.Via.Ports.{Peripherals, Board, via1_read_pb, via1_write_pb}

-- `for(int i = n - 1; i >= 0; --i)`.
abbrev pub loop_down : {S : Type 0} → (ℕ → S → S) → ℕ → S → S
loop_down body zero s = s
loop_down body (suc n) s = loop_down body n (body n s)

-- A byte with its bits in the opposite order.
abbrev pub reversed : ℕ → ℕ
reversed v = to_ulong 8 (λ i. bit v (7 - i))

turned :
    (v : ℕ)
    → bit v 7 ∷ bit v 6 ∷ bit v 5 ∷ bit v 4 ∷ bit v 3 ∷ bit v 2 ∷ bit v 1 ∷ bit v 0 ∷ []
      ≡ byte_bits (reversed v)
turned v =
    let f = λ (i : ℕ). bit v (7 - i) in
    rw
      (
        bit-to_ulong 8 0 f,
        bit-to_ulong 8 1 f,
        bit-to_ulong 8 2 f,
        bit-to_ulong 8 3 f,
        bit-to_ulong 8 4 f,
        bit-to_ulong 8 5 f,
        bit-to_ulong 8 6 f,
        bit-to_ulong 8 7 f,
      )
      refl

-- `ret = ret << 1 | bit` for each bit.
abbrev collect : ℕ → List Bool → ℕ
collect ret [] = ret
collect ret (v ∷ vs) = collect (bit_or (ret * 2) (to_num v) % 2 ^ 8) vs

collected : (v : ℕ) → v < 256 → collect 0 (byte_bits v) ≡ reversed v
collected v h =
    (==_iff (collect 0 (byte_bits v)) (reversed v)).0
      (passes-each (λ b. collect 0 (byte_bits b) == reversed b) 256 v h refl)

module _ {E : Type 0} (chips : Peripherals E) (time : ℕ) where
  -- The clock line down and up again.
  abbrev pub pulse : Board E → Board E
  pulse b = via1_write_pb chips time 1 true (via1_write_pb chips time 1 false b)

  unfoldable pub rtc_send : ℕ → Board E → Board E
  unfolding via1_write_pb
  rtc_send v b = loop_down (λ i x. pulse (via1_write_pb chips time 0 (bit v i) x)) 8 b

  abbrev recv_step : ℕ × Board E → ℕ × Board E
  recv_step (ret, b) =
      let b1 = pulse b in (bit_or (ret * 2) (to_num (via1_read_pb chips time 0 b1)) % 2 ^ 8, b1)

  unfoldable pub rtc_recv : Board E → ℕ × Board E
  unfolding via1_write_pb via1_read_pb
  rtc_recv b =
      let input : Board E = record b {
        via1 = record (b.via1) { dirb = put b.via1.dirb 0 false };
      } in
      loop_down (λ i x. recv_step x) 8 (0, input)

  -- The board after a bit has been sent.
  abbrev after_bit : Bool → Board E → Board E
  after_bit v b = record b { rtc = send_rtc time v b.rtc; rtc_line = v; rtc_clock = true }

  send_step :
      (v : Bool) (b : Board E)
      → b.rtc_enable ≡ true
      → b.rtc_clock ≡ true
      → b.via1.dirb 0 ≡ true
      → pulse (via1_write_pb chips time 0 v b) ≡ after_bit v b
  unfolding via1_write_pb
  send_step v b enabled clock output = rw (enabled, clock, output) refl

  -- A run of bits that are sent.
  abbrev run : List Bool → Board E → Board E
  run [] b = b
  run (v ∷ vs) b = run vs (pulse (via1_write_pb chips time 0 v b))

  run_lem :
      (vs : List Bool) (b : Board E)
      → b.rtc_enable ≡ true
      → b.rtc_clock ≡ true
      → b.via1.dirb 0 ≡ true
      → (run vs b).rtc ≡ send_bits time vs b.rtc
  run_lem [] b enabled clock output = refl
  run_lem (v ∷ vs) b enabled clock output =
      ap (λ (x : Board E). (run vs x).rtc) (send_step v b enabled clock output)
      ∙ run_lem vs (after_bit v b) enabled refl output

  -- With the clock chip enabled, its clock line high and its data pin an output, rtc_send of a byte to a
  -- chip that holds no part of a byte completes there the byte with its bits in the opposite order: the
  -- chip takes the lowest bit first, rtc_send sends the highest first.
  pub rtc_send_lem :
      (v : ℕ) (b : Board E)
      → b.rtc_enable ≡ true
      → b.rtc_clock ≡ true
      → b.via1.dirb 0 ≡ true
      → IsIdle b.rtc
      → (rtc_send v b).rtc
        ≡ complete time (record (b.rtc) {
          rtc_cmd = 0;
          rtc_cnt_w = 0;
          rtc_lists = b.rtc.rtc_lists ++ reversed v ∷ [];
        })
  unfolding rtc_send
  rtc_send_lem v b enabled clock output idle =
      run_lem (bit v 7 ∷ bit v 6 ∷ bit v 5 ∷ bit v 4 ∷ bit v 3 ∷ bit v 2 ∷ bit v 1 ∷ bit v 0 ∷ []) b
        enabled clock output
      ∙ ap (λ l. send_bits time l b.rtc) (turned v)
      ∙ send_bits_lem time (reversed v) b.rtc (to_ulong-lt 8 (λ i. bit v (7 - i))) idle

  -- The board after a bit has been received.
  abbrev got_bit : Board E → Board E
  got_bit b = record b { rtc = (recv_rtc b.rtc).0; rtc_line = (recv_rtc b.rtc).1; rtc_clock = true }

  take_step :
      (b : Board E)
      → b.rtc_enable ≡ true
      → b.rtc_clock ≡ true
      → b.via1.dirb 0 ≡ false
      → pulse b ≡ got_bit b
  unfolding via1_write_pb
  take_step b enabled clock input = rw (enabled, clock, input) refl

  recv_lem :
      (n ret : ℕ) (b : Board E)
      → b.rtc_enable ≡ true
      → b.rtc_clock ≡ true
      → b.via1.dirb 0 ≡ false
      → (loop_down (λ i x. recv_step x) n (ret, b)).0 ≡ collect ret (recv_bits n b.rtc)
  unfolding via1_read_pb
  recv_lem zero ret b enabled clock input = refl
  recv_lem (suc n) ret b enabled clock input =
      ap
        (λ (x : Board E).
          (loop_down (λ i y. recv_step y) n
            (bit_or (ret * 2) (to_num (via1_read_pb chips time 0 x)) % 2 ^ 8, x)).0)
        (take_step b enabled clock input)
      ∙ recv_lem n (bit_or (ret * 2) (to_num (recv_rtc b.rtc).1) % 2 ^ 8) (got_bit b) enabled refl
          input

  -- With the clock chip enabled, its clock line high and its answer at its first bit, rtc_recv gives the
  -- answer's byte with its bits in the opposite order.
  pub rtc_recv_lem :
      (b : Board E)
      → b.rtc_enable ≡ true
      → b.rtc_clock ≡ true
      → b.rtc.rtc_cnt_r % 8 ≡ 0
      → b.rtc.rtc_val < 256
      → (rtc_recv b).0 ≡ reversed b.rtc.rtc_val
  unfolding rtc_recv
  rtc_recv_lem b enabled clock first small =
      recv_lem 8 0 (record b { via1 = record (b.via1) { dirb = put b.via1.dirb 0 false } }) enabled
        clock refl
      ∙ ap (collect 0) (recv_bits_lem b.rtc first)
      ∙ collected b.rtc.rtc_val small
