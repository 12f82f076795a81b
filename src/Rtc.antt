-- ===== src/Rtc.antt =====
-- src/chip/rtc.cc: the clock chip with its parameter RAM, driven bit by bit over a serial line.
-- `now` is what the library call `time` returns; the one-second timer is not modelled.
pub mod Serial
pub mod Commands
use newmacemu.Common.{
  ℕ, ◌+◌, ◌*◌, ◌/◌, ◌%◌, ◌^◌, Bool, false, ◌&&◌, List, [], ◌∷◌, ◌++◌, bit_and, bit_or, bit, to_num,
  ltb, ◌==◌, if◌then◌else◌, length, get_or,
}

-- The static variables of the file; `xpram` is the array XPRAM.
pub record Rtc : Type 0 where
  pub rtc_cmd : ℕ
  pub rtc_cnt_w : ℕ
  pub rtc_cnt_r : ℕ
  pub rtc_lists : List ℕ
  pub rtc_val : ℕ
  pub xpram : ℕ → ℕ

abbrev pub mac_time_diff : ℕ
mac_time_diff = 2082844800

-- The seconds that the chip counts, a uint32_t.
abbrev pub clock : ℕ → ℕ
clock now = (now + mac_time_diff) % 2 ^ 32

-- The `switch(reg & 3)`: one byte of the count.
abbrev clock_byte : ℕ → ℕ → ℕ
clock_byte t k =
    if k == 0
    then t % 2 ^ 8
    else if k == 1
    then t / 2 ^ 8 % 2 ^ 8
    else if k == 2
    then t / 2 ^ 16 % 2 ^ 8
    else t / 2 ^ 24 % 2 ^ 8

unfoldable pub xpram_read : ℕ → Rtc → ℕ → ℕ
xpram_read now st reg = if ltb reg 8 then clock_byte (clock now) (bit_and reg 3) else st.xpram reg

unfoldable pub xpram_write : Rtc → ℕ → ℕ → Rtc
xpram_write st reg v = record st { xpram = λ j. if j == reg then v else st.xpram j }

-- The register of an extended command, from its two bytes.
abbrev pub extended_reg : ℕ → ℕ → ℕ
extended_reg cmd param = bit_or (bit_and (cmd * 2 ^ 5) 0xe0) (bit_and (param / 2 ^ 2) 0x1f) % 2 ^ 8

-- The register of a plain command.
abbrev pub plain_reg : ℕ → ℕ
plain_reg cmd = bit_and (cmd / 2 ^ 2) 0x1f

-- `(cmd & 0xB8) == 0xB8` and `(cmd & 0xB8) == 0x38`.
abbrev pub is_extended_read : ℕ → Bool
is_extended_read cmd = bit_and cmd 0xb8 == 0xb8

abbrev pub is_extended_write : ℕ → Bool
is_extended_write cmd = bit_and cmd 0xb8 == 0x38

unfoldable pub do_rtc : ℕ → Rtc → ℕ → ℕ → ℕ → Rtc × ℕ
unfolding xpram_read xpram_write
do_rtc now st cmd v0 v1 =
    if is_extended_read cmd
    then (st, xpram_read now st (extended_reg cmd v0))
    else if is_extended_write cmd
    then (xpram_write st (extended_reg cmd v0) v1, 0)
    else if bit cmd 7
    then (st, xpram_read now st (plain_reg cmd))
    else (xpram_write st (plain_reg cmd) v0, 0)

-- `rtc_val = do_rtc(...); rtc_cnt_r = 0; rtc_lists.clear();`
abbrev answer : Rtc × ℕ → Rtc
answer (st, v) = record st { rtc_val = v; rtc_cnt_r = 0; rtc_lists = [] }

-- `do_rtc(...); rtc_lists.clear();`
abbrev perform : Rtc × ℕ → Rtc
perform (st, v) = record st { rtc_lists = [] }

-- send_rtc after `rtc_lists.push_back(rtc_cmd); rtc_cmd = 0`; `l k` is `rtc_lists[k]`.
unfoldable pub complete : ℕ → Rtc → Rtc
unfolding do_rtc
complete now st =
    let l = λ (k : ℕ). get_or st.rtc_lists k 0 in
    let n : ℕ = length st.rtc_lists in
    if is_extended_read (l 0) && (n == 2)
    then answer (do_rtc now st (l 0) (l 1) 0)
    else if is_extended_write (l 0) && (n == 3)
    then perform (do_rtc now st (l 0) (l 1) (l 2))
    else if bit (l 0) 7 && (n == 1)
    then answer (do_rtc now st (l 0) 0 0)
    else if n == 2
    then perform (do_rtc now st (l 0) (l 1) 0)
    else st

-- send_rtc: one bit from the machine, lowest first.
unfoldable pub send_rtc : ℕ → Bool → Rtc → Rtc
send_rtc now v st =
    let cmd : ℕ = bit_or st.rtc_cmd (to_num v * 2 ^ st.rtc_cnt_w) % 2 ^ 8 in
    let cnt : ℕ = (st.rtc_cnt_w + 1) % 8 in
    if cnt == 0
    then complete now
        (record st { rtc_cmd = 0; rtc_cnt_w = cnt; rtc_lists = st.rtc_lists ++ cmd ∷ [] })
    else record st { rtc_cmd = cmd; rtc_cnt_w = cnt }

-- recv_rtc: one bit to the machine.
unfoldable pub recv_rtc : Rtc → Rtc × Bool
recv_rtc st =
    let cnt : ℕ = st.rtc_cnt_r % 8 in (record st { rtc_cnt_r = cnt + 1 }, bit st.rtc_val cnt)
