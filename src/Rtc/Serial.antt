-- ===== src/Rtc/Serial.antt =====
-- A byte that is sent bit by bit arrives whole, and a byte that is read arrives bit by bit.
use newmacemu.Common.{
  ℕ, zero, suc, ◌*◌, ◌%◌, ◌^◌, ◌<◌, ◌≡◌, refl, ap, ◌∙◌, Bool, true, List, [], ◌∷◌, ◌++◌, bit_or,
  bit, to_num, ◌==◌, ==_iff,
}
use newmacemu.Common.Table.{passes, passes-each}
use newmacemu.Rtc.{Rtc, send_rtc, recv_rtc, complete}

-- The bits of a byte in the order of the line.
abbrev pub byte_bits : ℕ → List Bool
byte_bits b = bit b 0 ∷ bit b 1 ∷ bit b 2 ∷ bit b 3 ∷ bit b 4 ∷ bit b 5 ∷ bit b 6 ∷ bit b 7 ∷ []

-- A run of calls of send_rtc, and of recv_rtc.
abbrev pub send_bits : ℕ → List Bool → Rtc → Rtc
send_bits now [] st = st
send_bits now (v ∷ vs) st = send_bits now vs (send_rtc now v st)

abbrev pub recv_bits : ℕ → Rtc → List Bool
recv_bits zero st = []
recv_bits (suc n) st = (recv_rtc st).1 ∷ recv_bits n (recv_rtc st).0

abbrev push_bit : ℕ → ℕ → ℕ → ℕ
push_bit b k cmd = bit_or cmd (to_num (bit b k) * 2 ^ k) % 2 ^ 8

-- The eight steps of rtc_cmd.
abbrev gather : ℕ → ℕ
gather b = push_bit b 7 (
    push_bit b 6
      (push_bit b 5 (push_bit b 4 (push_bit b 3 (push_bit b 2 (push_bit b 1 (push_bit b 0 0)))))))

gather_table : passes (λ b. gather b == b) 256 ≡ true
gather_table = refl

gather_lem : (b : ℕ) → b < 256 → gather b ≡ b
gather_lem b h = (==_iff (gather b) b).0 (passes-each (λ b. gather b == b) 256 b h gather_table)

-- Between bytes nothing of a byte is held.
abbrev pub IsIdle : Rtc → Type 0
IsIdle st = (st.rtc_cmd ≡ 0) × (st.rtc_cnt_w ≡ 0)

-- Eight bits from an idle state, with the state written out.
send_bits_idle :
    (now b cnt_r : ℕ) (lists : List ℕ) (val : ℕ) (ram : ℕ → ℕ)
    → b < 256
    → send_bits now (byte_bits b) (record {
      rtc_cmd = 0;
      rtc_cnt_w = 0;
      rtc_cnt_r = cnt_r;
      rtc_lists = lists;
      rtc_val = val;
      xpram = ram;
    })
      ≡ complete now (record {
        rtc_cmd = 0;
        rtc_cnt_w = 0;
        rtc_cnt_r = cnt_r;
        rtc_lists = lists ++ b ∷ [];
        rtc_val = val;
        xpram = ram;
      })
unfolding send_rtc
send_bits_idle now b cnt_r lists val ram h =
    ap
      (λ t. complete now (record {
        rtc_cmd = 0;
        rtc_cnt_w = 0;
        rtc_cnt_r = cnt_r;
        rtc_lists = lists ++ t ∷ [];
        rtc_val = val;
        xpram = ram;
      }))
      (gather_lem b h)

-- The eight bits of a byte, lowest first, sent to a chip that holds no part of a byte, are the same as
-- that byte completed.
pub send_bits_lem :
    (now b : ℕ) (st : Rtc)
    → b < 256
    → IsIdle st
    → send_bits now (byte_bits b) st
      ≡ complete now (record st { rtc_cmd = 0; rtc_cnt_w = 0; rtc_lists = st.rtc_lists ++ b ∷ [] })
send_bits_lem now b st h idle =
    ap (send_bits now (byte_bits b)) (λ i. record st { rtc_cmd = idle.0 i; rtc_cnt_w = idle.1 i })
    ∙ send_bits_idle now b st.rtc_cnt_r st.rtc_lists st.rtc_val st.xpram h

-- Eight reads from a chip whose read counter stands at a multiple of eight give the bits of the value.
pub recv_bits_lem : (st : Rtc) → st.rtc_cnt_r % 8 ≡ 0 → recv_bits 8 st ≡ byte_bits st.rtc_val
unfolding recv_rtc
recv_bits_lem st e = rw e
