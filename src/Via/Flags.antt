-- ===== src/Via/Flags.antt =====
-- Timer 1, and the output pins of port B.
use newmacemu.Common.{
  ℕ, zero, suc, ◌+◌, ◌-◌, ◌*◌, ◌/◌, ◌%◌, ◌^◌, ◌<◌, ◌≤◌, ◌≡◌, refl, ap, ◌∙◌, arith, Bool, true,
  false, bit, ltb, ◌==◌, ==_iff, if◌then◌else◌, Bool-cases, inl, inr,
}
use newmacemu.Via.{Via, cb1, cb2, put, loop, clear_flag, Port}
use newmacemu.Via.Bytes.{bit-to_ulong}
use newmacemu.Via.Latches.{low_set, high_set}
use newmacemu.Via.Registers.{
  read, write, write_bit_b, clear_pair, bit_b, low_latch, high_latch, counted, start1,
}

ticked :
    (lo hi now t : ℕ)
    → lo < 256
    → hi < 256
    → t ≤ hi * 256 + lo
    → now + t < 2 ^ 64
    → counted (hi * 256 + lo) now (now + t) ≡ hi * 256 + lo - t
ticked lo hi now t hl hh ht fits = omega arith

within : (i : ℕ) (b : Bool) → i < 8 → (if ltb i 8 then b else false) ≡ b
within i b h = ground arith

other_pin : (i k : ℕ) (f : ℕ → Bool) → f i ≡ true → f k ≡ false → (i == k) ≡ false
other_pin i k f on off = elim (Bool-cases (i == k)) [
  | inr other ↦ other
  | inl same ↦ ground (arith, ap f ((==_iff i k).0 same))
]

module _ {S : Type 0} (port : Port S) where
  -- Timer 1, started by its low byte in register 4 and its high byte in register 5: as long as it has not
  -- run out and the counter of ticks does not wrap, registers 4 and 5 read together give the count less the ticks since the start, and
  -- registers 6 and 7 the two bytes.
  pub timer1_lem :
      (before now t lo hi : ℕ) (s : S)
      → lo < 256
      → hi < 256
      → t ≤ hi * 256 + lo
      → now + t < 2 ^ 64
      → let started = write port now 5 hi (write port before 4 lo s) in
        ((read port (now + t) 4 started).0 + (read port (now + t) 5 started).0 * 256
          ≡ hi * 256 + lo - t)
        × ((read port (now + t) 6 started).0 ≡ lo)
        × ((read port (now + t) 7 started).0 ≡ hi)
  unfolding read write
  timer1_lem before now t lo hi s hl hh ht fits =
      let loaded : Via = record (port.via s) {
        timer1_latch = low_latch (port.via s).timer1_latch lo;
      } in
      let s1 = port.put_via loaded s in
      let first = port.via-put_via loaded s in
      let second = port.via-put_via (start1 port now hi (port.via s1)) s1 in
      let after = port.via (port.put_via (start1 port now hi (port.via s1)) s1) in
      let latched : high_latch (port.via s1).timer1_latch hi ≡ hi * 256 + lo =
        ap (λ (x : Via). high_latch x.timer1_latch hi) first
        ∙ high_set (low_latch (port.via s).timer1_latch lo) hi hh
        ∙ omega (arith, low_set (port.via s).timer1_latch lo hl) in
      let count : after.timer1_cnt ≡ hi * 256 + lo =
        ap (λ (x : Via). x.timer1_cnt) second ∙ latched in
      let latch : after.timer1_latch ≡ hi * 256 + lo =
        ap (λ (x : Via). x.timer1_latch) second ∙ latched in
      let start : after.timer1_base ≡ now = ap (λ (x : Via). x.timer1_base) second in
      let left : counted after.timer1_cnt after.timer1_base (now + t) ≡ hi * 256 + lo - t =
        rw (count, start) (ticked lo hi now t hl hh ht fits) in
      (
        ap (λ (x : ℕ). x % 256 + x / 256 % 256 * 256) left ∙ omega arith,
        ap (λ (x : ℕ). x % 256) latch ∙ omega arith,
        ap (λ (x : ℕ). x / 256 % 256) latch ∙ omega arith,
      )

  -- A write to a pin, or the store of a bit of port B, leaves the directions alone.
  step_dirb : (v k : ℕ) (s : S) → (port.via (write_bit_b port v k s)).dirb ≡ (port.via s).dirb
  step_dirb v k s = elim (Bool-cases ((port.via s).dirb k)) [
    | inl out ↦ rw out (port.keeps_dirb k (bit v k) s)
    | inr in_ ↦
        let stored : Via = record (port.via s) { orb = put (port.via s).orb k (bit v k) } in
        rw in_ (ap (λ (x : Via). x.dirb) (port.via-put_via stored s))
  ]

  step_orb :
      (v k i : ℕ) (s : S)
      → (port.via s).dirb i ≡ true
      → (port.via (write_bit_b port v k s)).orb i ≡ (port.via s).orb i
  step_orb v k i s output = elim (Bool-cases ((port.via s).dirb k)) [
    | inl out ↦ rw out (ap (λ (f : ℕ → Bool). f i) (port.keeps_orb k (bit v k) s))
    | inr in_ ↦
        let stored : Via = record (port.via s) { orb = put (port.via s).orb k (bit v k) } in
        let other : (i == k) ≡ false = other_pin i k (port.via s).dirb output in_ in
        rw in_ (ap (λ (x : Via). x.orb i) (port.via-put_via stored s) ∙ rw other refl)
  ]

  loop_dirb :
      (n v : ℕ) (s : S) → (port.via (loop (write_bit_b port v) n s)).dirb ≡ (port.via s).dirb
  loop_dirb zero v s = refl
  loop_dirb (suc n) v s = step_dirb v n (loop (write_bit_b port v) n s) ∙ loop_dirb n v s

  loop_orb :
      (n v i : ℕ) (s : S)
      → (port.via s).dirb i ≡ true
      → (port.via (loop (write_bit_b port v) n s)).orb i ≡ (port.via s).orb i
  loop_orb zero v i s output = refl
  loop_orb (suc n) v i s output =
      step_orb v n i (loop (write_bit_b port v) n s)
        (ap (λ (f : ℕ → Bool). f i) (loop_dirb n v s) ∙ output)
      ∙ loop_orb n v i s output

  -- Register 0 does not read back what was written to an output pin: after a write of any byte, the bit of
  -- an output pin reads as ORB held it before the write.
  pub read-write_output :
      (now later v i : ℕ) (s : S)
      → i < 8
      → (port.via s).dirb i ≡ true
      → bit (read port later 0 (write port now 0 v s)).0 i ≡ (port.via s).orb i
  unfolding read write
  read-write_output now later v i s h output =
      let s0 = clear_pair port cb1 cb2 s in
      let s1 = loop (write_bit_b port v) 8 s0 in
      let cleared = λ (x : Via). clear_flag cb2 (clear_flag cb1 x) in
      let before = port.via-put_via (cleared (port.via s)) s in
      let after = port.via-put_via (cleared (port.via s1)) s1 in
      let still : (port.via s0).dirb i ≡ true = ap (λ (x : Via). x.dirb i) before ∙ output in
      let outward : (port.via (clear_pair port cb1 cb2 s1)).dirb i ≡ true =
        ap (λ (x : Via). x.dirb i) after ∙ ap (λ (f : ℕ → Bool). f i) (loop_dirb 8 v s0) ∙ still in
      bit-to_ulong 8 i (bit_b port (clear_pair port cb1 cb2 s1))
      ∙ within i (bit_b port (clear_pair port cb1 cb2 s1) i) h
      ∙ rw outward (
          ap (λ (x : Via). x.orb i) after
          ∙ loop_orb 8 v i s0 still
          ∙ ap (λ (x : Via). x.orb i) before)
