-- ===== src/Decoder/Lines.antt =====
-- The opcodes of whole lines, and those of TRAPcc, in the table of src/cpu/op.cc.
use newmacemu.Common.{
  ℕ, ◌+◌, ◌*◌, ◌/◌, ◌%◌, ◌^◌, ◌≤◌, ◌≡◌, refl, arith, Bool, true, false, ◌&&◌, ◌==◌, leb, List, [],
  ◌∷◌, some, Bool-cases, inl, inr, if◌then◌else◌, bit_and, bit, ap, ◌∙◌,
}
use newmacemu.Common.Mask.{bit_and-mod}
use newmacemu.Decoder.{Loop, Rule, Instruction, value_in, reached}
use newmacemu.Decoder.Sound.{last_handler-every, last_handler-at}
use newmacemu.Decoder.Table.{all_rules, run_table}
use newmacemu.Instruction.{reg_of}
use newmacemu.Instruction.Conditions.{trap_operand}

-- Every opcode of the line 6 has the handler of Bcc, every one of the line A the handler of the line A, and
-- every one of the line 7 with the bit 8 clear the handler of MOVEQ.
pub run_table-lines :
    (op : ℕ)
    → (op / 2 ^ 12 ≡ 6 → run_table op ≡ some Instruction.bxx)
      × (op / 2 ^ 12 ≡ 10 → run_table op ≡ some Instruction.aline_ex)
      × (op / 2 ^ 12 ≡ 7 → bit op 8 ≡ false → run_table op ≡ some Instruction.moveq)
unfolding run_table
run_table-lines op = (
  λ here. last_handler-at 242 6 op all_rules _ _ refl here refl (ground arith),
  λ here. last_handler-at 243 10 op all_rules _ _ refl here refl (ground arith),
  λ here low. last_handler-at 228 7 op all_rules _ _ refl here refl (ground arith),
)

abbrev is_trapcc : Instruction → Bool
is_trapcc Instruction.trapcc = true
is_trapcc _ = false

-- The variables of the rule stand above the three low bits of an opcode.
abbrev is_high : List Loop → Bool
is_high [] = true
is_high (l ∷ ls) = if l.shift == 8 then is_high ls else false

abbrev fits_trapcc : Rule → Bool
fits_trapcc r =
    if is_trapcc r.handler
    then is_high r.loops && (leb 2 (r.base % 8) && leb (r.base % 8) 4)
    else true

reached-low :
    (b : ℕ) (ls : List Loop) (op : ℕ) → is_high ls ≡ true → reached b ls op ≡ true → op % 8 ≡ b % 8
reached-low b [] op high h = ground arith
reached-low b (l ∷ ls) op high h =
    let eight : l.shift ≡ 8 = ground arith in
    let aligned : value_in l op * 2 ^ l.shift ≡ value_in l op * 2 ^ 8 =
      ap (λ k. value_in l op * 2 ^ k) eight in
    let rest = reached-low (b + value_in l op * 2 ^ l.shift) ls op (ground arith) (ground arith) in
    omega arith

trapcc_rule :
    (r : Rule)
    → is_trapcc r.handler ≡ true
    → fits_trapcc r ≡ true
    → (is_high r.loops ≡ true) × (2 ≤ r.base % 8) × (r.base % 8 ≤ 4)
trapcc_rule r here passed = (ground arith, ground arith, ground arith)

low_bits : (op low : ℕ) → op % 8 ≡ low → bit_and op 7 ≡ low
low_bits op low same = bit_and-mod 3 op ∙ same

known_operand : (reg : ℕ) → 2 ≤ reg → reg ≤ 4 → (k : ℕ) × (trap_operand reg ≡ some k)
unfolding trap_operand
known_operand reg low high = elim (Bool-cases (reg == 2)) [
  | inl two ↦ (2, rw two refl)
  | inr more ↦ elim (Bool-cases (reg == 3)) [
    | inl three ↦ (4, rw (more, three) refl)
    | inr most ↦ (0, ground arith)
  ]
]

-- An opcode whose handler is TRAPcc selects one of the operand lengths that the handler knows: the
-- unreachable branch of its `switch` is not reached.
pub run_table-trap_operand :
    (op : ℕ)
    → run_table op ≡ some Instruction.trapcc
    → (k : ℕ) × (trap_operand (reg_of op) ≡ some k)
unfolding run_table trap_operand reg_of
run_table-trap_operand op found =
    last_handler-every (λ i. is_trapcc i ≡ true → (k : ℕ) × (trap_operand (reg_of op) ≡ some k))
      fits_trapcc op
      (λ r passed hit here.
        let (high, from, to) = trapcc_rule r here passed in
        let same = low_bits op (r.base % 8) (reached-low r.base r.loops op high hit) in
        rw same (known_operand (r.base % 8) from to))
      all_rules Instruction.trapcc refl found refl
