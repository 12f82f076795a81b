-- ===== src/Exception/Resumed.antt =====
-- An exception with a frame of format 0, and the return from it by RTE.
use newmacemu.Common.{
  ℕ, suc, ◌+◌, ◌/◌, ◌%◌, ◌^◌, ◌<◌, ◌≤◌, ◌≡◌, refl, ap, ◌∙◌, arith, Bool, true, false, bit, ◌==◌,
  if◌then◌else◌, inr, some, word, long,
}
use newmacemu.Common.Mask.{bit_or-add}
use newmacemu.Machine.{
  Machine, ExceptionNumber, illegal_op, priv_err, aline, fline, format_err, trap, ok,
}
use newmacemu.Bus.{Devices, read_be, write_be}
use newmacemu.Bus.Endian.{read_be-write_be}
use newmacemu.Memory.{Mmu, offset}
use newmacemu.Memory.Alignment.{InRam, IsBytes, IsPlain, read_w-ram}
use newmacemu.Stack.{pop16, pop32, jump}
use newmacemu.Status.{set_sr}
use newmacemu.Exception.{number, exception0, frame_of}
use newmacemu.Exception.Entry.{update-update}
use newmacemu.Exception.Frame.{at, frame0, frame0-IsBytes, read_word-other}
use newmacemu.Exception.Return.{resume, do_rte}

-- The exceptions with a frame of format 0 that are no interrupts.
pub data HasFormat0 : ExceptionNumber → Type 0 where
  by_illegal_op : HasFormat0 illegal_op
  by_priv_err : HasFormat0 priv_err
  by_aline : HasFormat0 aline
  by_fline : HasFormat0 fline
  by_format_err : HasFormat0 format_err
  by_trap : (k : ℕ) → k < 16 → HasFormat0 (trap k)

abbrev pub is_trap : ExceptionNumber → Bool
is_trap (trap k) = true
is_trap _ = false

-- The program counter in the frame: that of the next instruction for TRAP, else of the faulty one.
abbrev pub return_pc : {Io : Type 0} → ExceptionNumber → Machine Io → ℕ
return_pc n m = if is_trap n then m.pc else m.oldpc

pub vector_fits : (n : ExceptionNumber) → HasFormat0 n → number n < 48
unfolding number
vector_fits _ by_illegal_op = omega arith
vector_fits _ by_priv_err = omega arith
vector_fits _ by_aline = omega arith
vector_fits _ by_fline = omega arith
vector_fits _ by_format_err = omega arith
vector_fits _ (by_trap k h) = omega arith

word_fits : (q : ℕ → ℕ) (b : ℕ) → IsBytes q → read_be word q b < 2 ^ 16
unfolding read_be
word_fits q b bytes = grind (arith, bytes b, bytes (b + 1))

-- The machine after a return to `next` with the status register `sr`.
abbrev pub back_at : {Io : Type 0} → ℕ → ℕ → Machine Io → Machine Io
back_at next sr m =
    let m1 = set_sr sr m in
    record (if m1.t == 1 then record m1 { must_trace = true } else m1) { pc = next }

module _ {Io : Type 0} (devices : Devices Io) (mmu : Mmu Io) where
  pub frame_of-format0 :
      (n : ExceptionNumber) (sr : ℕ) (m : Machine Io)
      → HasFormat0 n
      → frame_of devices mmu n sr m ≡ exception0 devices mmu (number n) (return_pc n m) sr m
  unfolding frame_of
  frame_of-format0 _ sr m by_illegal_op = refl
  frame_of-format0 _ sr m by_priv_err = refl
  frame_of-format0 _ sr m by_aline = refl
  frame_of-format0 _ sr m by_fline = refl
  frame_of-format0 _ sr m by_format_err = refl
  frame_of-format0 _ sr m (by_trap k h) = refl

  pop16-ram :
      (b next : ℕ) (q : ℕ → ℕ) (m : Machine Io)
      → next ≡ b + 2
      → InRam word b m
      → IsBytes q
      → pop16 devices mmu (at m b q) ≡ ok (read_be word q b) (at m next q)
  unfolding pop16
  pop16-ram b next q m e (h, k) bytes =
      let above : offset b 2 ≡ next = omega arith in
      rw (read_w-ram devices mmu b (at m b q) (h, k) bytes, above, update-update m.a 7 b next) refl

  pop32-ram :
      (b low end : ℕ) (q : ℕ → ℕ) (m : Machine Io)
      → low ≡ b + 2
      → end ≡ b + 4
      → InRam long b m
      → IsBytes q
      → pop32 devices mmu (at m b q) ≡ ok (read_be word q low) (at m end q)
  unfolding pop32
  pop32-ram b low end q m e e' (h, k) bytes =
      let above : offset b 2 ≡ low = omega arith in
      let past : offset b 4 ≡ end = omega arith in
      let small = word_fits q low bytes in
      rw
        (
          read_w-ram devices mmu b (at m b q) (omega arith, k) bytes,
          above,
          read_w-ram devices mmu low (at m b q) (omega arith, k) bytes,
          past,
          update-update m.a 7 b end,
          bit_or-add 16 (read_be word q b) (read_be word q low) small,
        )
        (ap (λ x. ok x (at m end q)) (omega arith))

  resume-even :
      (next sr : ℕ) (m : Machine Io)
      → bit next 0 ≡ false
      → resume devices mmu sr next m ≡ ok tt (back_at next sr m)
  unfolding jump
  resume-even next sr m even = rw even refl

  pub do_rte-frame0 :
      (fuel b vector next sr : ℕ) (p : ℕ → ℕ) (m : Machine Io)
      → b + 8 ≤ m.ram_size
      → IsPlain m
      → IsBytes p
      → vector < 2 ^ 12
      → sr < 2 ^ 16
      → bit next 0 ≡ false
      → let q = frame0 p b vector next sr in
        do_rte devices mmu (suc fuel) (at m b q)
        ≡ ok (some tt) (back_at (next % 2 ^ 16) sr (at m (b + 8) q))
  unfolding do_rte
  do_rte-frame0 fuel b vector next sr p m room plain bytes hv hs even =
      let p1 = write_be word p (b + 6) (vector % 2 ^ 16) in
      let p2 = write_be word p1 (b + 4) (next % 2 ^ 16) in
      let p3 = write_be word p2 (b + 2) (next / 2 ^ 16 % 2 ^ 16) in
      let q = frame0 p b vector next sr in
      let all_bytes = frame0-IsBytes devices mmu p b vector next sr bytes in
      let status : read_be word q b ≡ sr =
        read_be-write_be word p3 b (sr % 2 ^ 16) (omega arith) ∙ omega arith in
      let counter : read_be word q (b + 4) ≡ next % 2 ^ 16 =
        read_word-other p3 b (sr % 2 ^ 16) (b + 4) (inr (omega arith))
        ∙ read_word-other p2 (b + 2) (next / 2 ^ 16 % 2 ^ 16) (b + 4) (inr (omega arith))
        ∙ read_be-write_be word p1 (b + 4) (next % 2 ^ 16) (omega arith) in
      let format : read_be word q (b + 6) ≡ vector =
        read_word-other p3 b (sr % 2 ^ 16) (b + 6) (inr (omega arith))
        ∙ read_word-other p2 (b + 2) (next / 2 ^ 16 % 2 ^ 16) (b + 6) (inr (omega arith))
        ∙ read_word-other p1 (b + 4) (next % 2 ^ 16) (b + 6) (inr (omega arith))
        ∙ read_be-write_be word p (b + 6) (vector % 2 ^ 16) (omega arith)
        ∙ omega arith in
      let zero_format : vector / 2 ^ 12 ≡ 0 = omega arith in
      let low : bit (next % 2 ^ 16) 0 ≡ false = ground arith in
      rw
        (
          pop16-ram b (b + 2) q m refl (omega arith, plain) all_bytes,
          status,
          pop32-ram (b + 2) (b + 4) (b + 6) q m (omega arith) (omega arith) (omega arith, plain)
              all_bytes,
          counter,
          pop16-ram (b + 6) (b + 8) q m (omega arith) (omega arith, plain) all_bytes,
          format,
          zero_format,
          resume-even (next % 2 ^ 16) sr (at m (b + 8) q) low,
        )
        refl
