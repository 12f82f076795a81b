-- ===== src/Exception/Frame.antt =====
-- The frame of format 0 in RAM, while no translation is enabled, and the return from it.
use newmacemu.Common.{
  ℕ, ◌+◌, ◌*◌, ◌/◌, ◌%◌, ◌^◌, ◌≤◌, ◌≡◌, ◌⊎◌, refl, arith, false, bit, inl, inr, word, long,
}
use newmacemu.Machine.{Machine, ok, update}
use newmacemu.Bus.{Devices, read_be, write_be}
use newmacemu.Memory.{Mmu, offset}
use newmacemu.Memory.Alignment.{InRam, IsBytes, read_l_impl-ram, write_w_impl-ram, write_be-IsBytes}
use newmacemu.Stack.{below}
use newmacemu.Exception.{ex_push16, ex_push32, ex_readl, ex_jump, exception0}
use newmacemu.Exception.Entry.{update-update}

-- The machine with another stack pointer and other RAM.
abbrev pub at : {Io : Type 0} → Machine Io → ℕ → (ℕ → ℕ) → Machine Io
at m b p = record m { a = update m.a 7 b; ram = p }

-- The frame from `b` on: status word, program counter, vector word.
abbrev pub frame0 : (ℕ → ℕ) → ℕ → ℕ → ℕ → ℕ → (ℕ → ℕ)
frame0 p b vector next sr =
    let p1 = write_be word p (b + 6) (vector % 2 ^ 16) in
    let p2 = write_be word p1 (b + 4) (next % 2 ^ 16) in
    let p3 = write_be word p2 (b + 2) (next / 2 ^ 16 % 2 ^ 16) in write_be word p3 b (sr % 2 ^ 16)

pub read_word-other :
    (p : ℕ → ℕ) (i v j : ℕ)
    → (j + 2 ≤ i) ⊎ (i + 2 ≤ j)
    → read_be word (write_be word p i v) j ≡ read_be word p j
unfolding read_be write_be
read_word-other p i v j (inl h) = ground arith
read_word-other p i v j (inr h) = ground arith

-- The handler's address, from the vector table.
abbrev pub handler : {Io : Type 0} → Machine Io → (ℕ → ℕ) → ℕ → ℕ
handler m p n = read_be long p (m.control.vbr + n * 4)

module _ {Io : Type 0} (devices : Devices Io) (mmu : Mmu Io) where
  push_one :
      (b top v : ℕ) (p : ℕ → ℕ) (m : Machine Io)
      → top ≡ b + 2
      → InRam word b m
      → ex_push16 devices mmu v (at m top p) ≡ ok tt (at m b (write_be word p b (v % 2 ^ 16)))
  unfolding ex_push16
  push_one b top v p m e (h, k) =
      let two : below top 2 ≡ b = omega arith in
      rw
        (
          two,
          update-update m.a 7 top b,
          write_w_impl-ram devices mmu b (v % 2 ^ 16) (at m b p) (h, k),
        )
        refl

  push_two :
      (b middle top v : ℕ) (p : ℕ → ℕ) (m : Machine Io)
      → middle ≡ b + 2
      → top ≡ b + 4
      → InRam long b m
      → ex_push32 devices mmu v (at m top p)
        ≡ ok tt
            (at m b (write_be word (write_be word p middle (v % 2 ^ 16)) b (v / 2 ^ 16 % 2 ^ 16)))
  unfolding ex_push32
  push_two b middle top v p m e e' (h, k) =
      rw
        (
          push_one middle top v p m (omega arith) (omega arith, k),
          push_one b middle (v / 2 ^ 16) (write_be word p middle (v % 2 ^ 16)) m e (omega arith, k),
        )
        refl

  pub frame0-IsBytes :
      (p : ℕ → ℕ) (b vector next sr : ℕ) → IsBytes p → IsBytes (frame0 p b vector next sr)
  frame0-IsBytes p b vector next sr bytes =
      let p1 = write_be word p (b + 6) (vector % 2 ^ 16) in
      let p2 = write_be word p1 (b + 4) (next % 2 ^ 16) in
      let p3 = write_be word p2 (b + 2) (next / 2 ^ 16 % 2 ^ 16) in
      write_be-IsBytes devices mmu word p3 b (sr % 2 ^ 16) (
        write_be-IsBytes devices mmu word p2 (b + 2) (next / 2 ^ 16 % 2 ^ 16) (
          write_be-IsBytes devices mmu word p1 (b + 4) (next % 2 ^ 16)
            (write_be-IsBytes devices mmu word p (b + 6) (vector % 2 ^ 16) bytes)))

  pub exception0-ram :
      (b n next sr : ℕ) (p : ℕ → ℕ) (m : Machine Io)
      → b + 8 ≤ m.ram_size
      → InRam long (m.control.vbr + n * 4) m
      → IsBytes p
      → bit (handler m (frame0 p b (n * 4) next sr) n) 0 ≡ false
      → exception0 devices mmu n next sr (at m (b + 8) p)
        ≡ ok tt (record (at m b (frame0 p b (n * 4) next sr)) {
          pc = handler m (frame0 p b (n * 4) next sr) n;
        })
  unfolding exception0 ex_readl ex_jump
  exception0-ram b n next sr p m room (table, plain) bytes even =
      let p1 = write_be word p (b + 6) (n * 4 % 2 ^ 16) in
      let p2 = write_be word p1 (b + 4) (next % 2 ^ 16) in
      let p3 = write_be word p2 (b + 2) (next / 2 ^ 16 % 2 ^ 16) in
      let p4 = write_be word p3 b (sr % 2 ^ 16) in
      let entry : offset m.control.vbr (n * 4) ≡ m.control.vbr + n * 4 = omega arith in
      rw
        (
          push_one (b + 6) (b + 8) (n * 4) p m (omega arith) (omega arith, plain),
          push_two (b + 2) (b + 4) (b + 6) next p1 m (omega arith) (omega arith)
              (omega arith, plain),
          push_one b (b + 2) sr p3 m refl (omega arith, plain),
          entry,
          read_l_impl-ram devices mmu (m.control.vbr + n * 4) false (at m b p4) (table, plain)
              (frame0-IsBytes p b (n * 4) next sr bytes),
          even,
        )
        refl
