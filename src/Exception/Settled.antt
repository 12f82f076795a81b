-- ===== src/Exception/Settled.antt =====
-- How handle_exception ends: an access error on the way is a double fault.
use newmacemu.Common.{
  ℕ, ◌+◌, ◌-◌, ◌==◌, ◌*◌, ◌/◌, ◌%◌, ◌^◌, ◌≡◌, refl, Bool, true, false, bit, Bool-cases, inl, inr,
  if◌then◌else◌, not32, bit_and, bit_or,
}
use newmacemu.Machine.{
  Machine, ExceptionNumber, no_err, reset, afault, addr_err, illegal_op, div0, chk_fail, trapx,
  priv_err, trace, aline, fline, format_err, undef_irq, unknown_irq, fp_unorder, fp_inex, fp_div0,
  fp_unfl, fp_operr, fp_ovfl, fp_snan, fp_unimpl_type, irq_lv, trap, Outcome, ok, ptest_error,
  raised, halted, M, bind, update,
}
use newmacemu.Bus.{Devices}
use newmacemu.Memory.{Mmu, offset, write_w_impl, read_l_impl}
use newmacemu.Stack.{sp, below, jump, address_error}
use newmacemu.Status.{get_sr, load_sp}
use newmacemu.Exception.{
  or_halt, number, ex_push16, ex_push32, ex_readl, ex_jump, enter, exception0, exception2,
  exception3, access_frame, access_word, access_rest, ssw_ct, throwaway, interrupt_frame, frame_of,
  supervised, handle_exception,
}

-- Is the outcome no access error?
abbrev pub settled : {Io A : Type 0} → Outcome Io A → Bool
settled (ptest_error code m) = false
settled _ = true

-- Does the computation end so on every machine?
abbrev Settles : {Io A : Type 0} → M Io A → Type 0
Settles {Io = Io} c = (m : Machine Io) → settled (c m) ≡ true

or_halt-settled : {Io A : Type 0} (r : Outcome Io A) → settled (or_halt r) ≡ true
or_halt-settled (ok x m) = refl
or_halt-settled (ptest_error code m) = refl
or_halt-settled (raised n m) = refl
or_halt-settled (halted m) = refl

bind-settled :
    {Io A B : Type 0} (r : Outcome Io A) (f : A → M Io B)
    → settled r ≡ true
    → ((x : A) → Settles (f x))
    → settled (bind r f) ≡ true
bind-settled (ok x m) f h k = k x m
bind-settled (ptest_error code m) f h k = h
bind-settled (raised n m) f h k = refl
bind-settled (halted m) f h k = refl

module _ {Io : Type 0} (devices : Devices Io) (mmu : Mmu Io) where
  push_one : (v : ℕ) → Settles (ex_push16 devices mmu v)
  unfolding ex_push16
  push_one v m =
      let m1 : Machine Io = record m { a = λ j. if j == 7 then below (sp m) 2 else m.a j } in
      or_halt-settled (write_w_impl devices mmu (below (sp m) 2) (v % 2 ^ 16) m1)

  push_two : (v : ℕ) → Settles (ex_push32 devices mmu v)
  unfolding ex_push32
  push_two v m =
      bind-settled (ex_push16 devices mmu v m) (λ done. ex_push16 devices mmu (v / 2 ^ 16))
        (push_one v m) λ done. push_one (v / 2 ^ 16)

  read_one : (addr : ℕ) → Settles (ex_readl devices mmu addr)
  unfolding ex_readl
  read_one addr m = or_halt-settled (read_l_impl devices mmu addr false m)

  jump_one : (addr : ℕ) → Settles (ex_jump devices mmu addr)
  unfolding ex_jump
  jump_one addr m = elim (Bool-cases (bit addr 0)) [
    | inl odd ↦ rw odd refl
    | inr even ↦ rw even refl
  ]

  plain_jump : (addr : ℕ) → Settles (jump {Io = Io} addr)
  unfolding jump address_error
  plain_jump addr m = elim (Bool-cases (bit addr 0)) [
    | inl odd ↦ rw odd refl
    | inr even ↦ rw even refl
  ]

  -- A push first, then the rest.
  pushed_first :
      {B : Type 0} (v : ℕ) (f : Unit {0} → M Io B)
      → ((x : Unit {0}) → Settles (f x))
      → Settles (λ m. bind (ex_push16 devices mmu v m) f)
  pushed_first v f k m = bind-settled (ex_push16 devices mmu v m) f (push_one v m) k

  pair_first :
      {B : Type 0} (v : ℕ) (f : Unit {0} → M Io B)
      → ((x : Unit {0}) → Settles (f x))
      → Settles (λ m. bind (ex_push32 devices mmu v m) f)
  pair_first v f k m = bind-settled (ex_push32 devices mmu v m) f (push_two v m) k

  enter_one : (n : ℕ) → Settles (enter devices mmu n)
  enter_one n m =
      bind-settled (ex_readl devices mmu (offset m.control.vbr (n * 4)) m) (ex_jump devices mmu)
        (read_one (offset m.control.vbr (n * 4)) m) jump_one

  short_frame : (n next sr : ℕ) → Settles (exception0 devices mmu n next sr)
  unfolding exception0
  short_frame n next sr m =
      pushed_first (n * 4) _ (λ x. pair_first next _ λ y. pushed_first sr _ λ z. enter_one n) m

  long_frame : (n addr next sr : ℕ) → Settles (exception2 devices mmu n addr next sr)
  unfolding exception2
  long_frame n addr next sr m =
      pair_first addr _
        (λ w.
          pushed_first (bit_or (2 * 2 ^ 12) (n * 4)) _
            λ x. pair_first next _ λ y. pushed_first sr _ λ z. enter_one n)
        m

  operand_frame : (n sr : ℕ) → Settles (exception3 devices mmu n sr)
  unfolding exception3
  operand_frame n sr m =
      pair_first m.ea _
        (λ w.
          pushed_first (bit_or (3 * 2 ^ 12) (n * 4)) _
            λ x m1. pair_first m1.pc _ (λ y. pushed_first sr _ λ z. enter_one n) m1)
        m

  thrown : (n sr : ℕ) → Settles (throwaway devices mmu n sr)
  unfolding load_sp
  thrown n sr m = elim (Bool-cases m.control.m) [
    | inl master ↦ rw master (
        pair_first (bit_or (2 ^ 12) (n * 4)) _ (λ x m1. pair_first m1.pc _ (λ y. push_one sr) m1)
          (load_sp (record m { control = record (m.control) { m = false } })))
    | inr interrupt ↦ rw interrupt refl
  ]

  masked_frame : (n sr : ℕ) → Settles (interrupt_frame devices mmu n sr)
  unfolding interrupt_frame
  masked_frame n sr m =
      pushed_first (n * 4) _
        (λ x m1.
          pair_first m1.pc _
            (λ y. pushed_first sr _ λ z m2.
              bind-settled (throwaway devices mmu n sr m2) _ (thrown n sr m2) λ w. enter_one n)
            m1)
        (record m { control = record (m.control) { i = (n + 2 ^ 8 - 24) % 2 ^ 8 } })

  fault_rest : (sr ssw : ℕ) → Settles (access_rest devices mmu sr ssw)
  unfolding access_rest
  fault_rest sr ssw m =
      pair_first (if bit_and ssw 0xf000 == 0 then 0 else m.ea) _
        (λ y. pushed_first (bit_or (7 * 2 ^ 12) (2 * 4)) _ λ z m3.
          pair_first m3.oldpc _
            (λ v. pushed_first sr _ λ u m4.
              bind-settled (ex_readl devices mmu (offset m4.control.vbr (2 * 4)) m4) _
                (read_one (offset m4.control.vbr (2 * 4)) m4) plain_jump)
            m3)
        m

  traced_frame : (sr : ℕ) → Settles (access_word devices mmu sr)
  unfolding access_word
  traced_frame sr m =
      let m1 : Machine Io = record m { a = update m.a 7 (below (sp m) (2 * 3)) } in
      let m2 : Machine Io =
        if m1.must_trace then record m1 { fault_ssw = bit_or m1.fault_ssw ssw_ct } else m1 in
      pushed_first m2.fault_ssw _ (λ x. fault_rest sr m2.fault_ssw) m2

  fault_frame : (sr : ℕ) → Settles (access_frame devices mmu sr)
  unfolding access_frame
  fault_frame sr m =
      let m1 : Machine Io = record m { a = update m.a 7 (below (sp m) (4 * 9)) } in
      pair_first m.ex_addr _ (λ w. traced_frame sr) m1

  -- handle_exception never throws an access error: for every exception and machine it ends normally,
  -- with another exception raised, or with the end of the run (a double fault, or an access past the end
  -- of RAM, which C++ leaves undefined).
  pub handle_exception-settled :
      (n : ExceptionNumber) (m : Machine Io) → settled (handle_exception devices mmu n m) ≡ true
  unfolding handle_exception frame_of
  handle_exception-settled no_err m = refl
  handle_exception-settled reset m = refl
  handle_exception-settled afault m = fault_frame (get_sr m) (supervised m)
  handle_exception-settled addr_err m =
      long_frame 3 (bit_and m.ex_addr (not32 1)) m.oldpc (get_sr m) (supervised m)
  handle_exception-settled illegal_op m =
      short_frame (number illegal_op) m.oldpc (get_sr m) (supervised m)
  handle_exception-settled priv_err m =
      short_frame (number priv_err) m.oldpc (get_sr m) (supervised m)
  handle_exception-settled aline m = short_frame (number aline) m.oldpc (get_sr m) (supervised m)
  handle_exception-settled fline m = short_frame (number fline) m.oldpc (get_sr m) (supervised m)
  handle_exception-settled format_err m =
      short_frame (number format_err) m.oldpc (get_sr m) (supervised m)
  handle_exception-settled (trap k) m = short_frame (number (trap k)) m.pc (get_sr m) (supervised m)
  handle_exception-settled div0 m = long_frame (number div0) m.oldpc m.pc (get_sr m) (supervised m)
  handle_exception-settled chk_fail m =
      long_frame (number chk_fail) m.oldpc m.pc (get_sr m) (supervised m)
  handle_exception-settled trapx m =
      long_frame (number trapx) m.oldpc m.pc (get_sr m) (supervised m)
  handle_exception-settled trace m =
      long_frame (number trace) m.oldpc m.pc (get_sr m) (supervised m)
  handle_exception-settled undef_irq m = masked_frame (number undef_irq) (get_sr m) (supervised m)
  handle_exception-settled unknown_irq m =
      masked_frame (number unknown_irq) (get_sr m) (supervised m)
  handle_exception-settled (irq_lv k) m = masked_frame (number (irq_lv k)) (get_sr m) (supervised m)
  handle_exception-settled fp_unorder m =
      operand_frame (number fp_unorder) (m.oldpc % 2 ^ 16) (supervised m)
  handle_exception-settled fp_inex m =
      operand_frame (number fp_inex) (m.oldpc % 2 ^ 16) (supervised m)
  handle_exception-settled fp_div0 m =
      operand_frame (number fp_div0) (m.oldpc % 2 ^ 16) (supervised m)
  handle_exception-settled fp_unfl m =
      operand_frame (number fp_unfl) (m.oldpc % 2 ^ 16) (supervised m)
  handle_exception-settled fp_operr m =
      operand_frame (number fp_operr) (m.oldpc % 2 ^ 16) (supervised m)
  handle_exception-settled fp_ovfl m =
      operand_frame (number fp_ovfl) (m.oldpc % 2 ^ 16) (supervised m)
  handle_exception-settled fp_snan m =
      operand_frame (number fp_snan) (m.oldpc % 2 ^ 16) (supervised m)
  handle_exception-settled fp_unimpl_type m =
      operand_frame (number fp_unimpl_type) (m.oldpc % 2 ^ 16) (supervised m)
