-- ===== src/Decoder/Sound.antt =====
-- What a handler that init_run_table gives an opcode says of the opcode.
use newmacemu.Common.{
  zero, suc, ◌-◌, ℕ, ◌+◌, ◌*◌, ◌/◌, ◌%◌, ◌^◌, ◌≤◌, ◌<◌, ◌≡◌, refl, subst, arith, Bool, true, false,
  not, ◌&&◌, ltb, ◌==◌, List, [], ◌∷◌, none, some, Bool-cases, Option-cases, inl, inr,
  if◌then◌else◌,
}
use native.Mathlib.Nat.{mod-lt, one-le-pow, mul-le-mul_right}
use newmacemu.Decoder.{Loop, Rule, Instruction, value_in, reached, assigns, last_handler}

-- Does every rule of a list pass?
abbrev pub every : (Rule → Bool) → List Rule → Bool
every test [] = true
every test (r ∷ rs) = if test r then every test rs else false

-- What holds of the handler and the opcode for each rule that passes a test holds of the table.
pub last_handler-every {ℓ} :
    (P : Instruction → Type ℓ) (test : Rule → Bool) (op : ℕ)
    → ((r : Rule) → test r ≡ true → assigns r op ≡ true → P r.handler)
    → (rs : List Rule) (i : Instruction) → every test rs ≡ true
    → last_handler rs op ≡ some i
    → P i
last_handler-every P test op good [] i all found = ground arith
last_handler-every P test op good (r ∷ rs) i all found = elim (Bool-cases (test r)) [
  | inr failed ↦ ground arith
  | inl passed ↦ elim (Option-cases (last_handler rs op)) [
    | inl later ↦ elim (Bool-cases (assigns r op)) [
      | inr other ↦ ground arith
      | inl here ↦ subst P (ground arith) (good r passed here)
    ]
    | inr (j, later) ↦ last_handler-every P test op good rs i (ground arith) (ground arith)
  ]
]

-- The most that the variables of the loops add to the base.
abbrev extent : List Loop → ℕ
extent [] = 0
extent (l ∷ ls) = (2 ^ l.width - 1) * 2 ^ l.shift + extent ls

value_small : (l : Loop) (op : ℕ) → value_in l op * 2 ^ l.shift ≤ (2 ^ l.width - 1) * 2 ^ l.shift
value_small l op =
    let small : value_in l op < 2 ^ l.width =
      mod-lt (op / 2 ^ l.shift) (one-le-pow l.width 2 (omega arith)) in
    mul-le-mul_right (2 ^ l.shift) (omega arith)

reached-range :
    (b : ℕ) (ls : List Loop) (op : ℕ) → reached b ls op ≡ true → (b ≤ op) × (op ≤ b + extent ls)
reached-range b [] op h = (ground arith, ground arith)
reached-range b (l ∷ ls) op h =
    let (low, high) = reached-range (b + value_in l op * 2 ^ l.shift) ls op (ground arith) in
    let small = value_small l op in (omega arith, omega arith)

-- The rules whose opcodes all stand in another line, the top four bits of an opcode.
abbrev pub elsewhere : ℕ → Rule → Bool
elsewhere line r = not (r.base / 2 ^ 12 == line) && ltb (r.base % 2 ^ 12 + extent r.loops) (2 ^ 12)

elsewhere-unassigned :
    (line op : ℕ) (rs : List Rule)
    → op / 2 ^ 12 ≡ line
    → every (elsewhere line) rs ≡ true
    → last_handler rs op ≡ none
elsewhere-unassigned line op [] here all = refl
elsewhere-unassigned line op (r ∷ rs) here all = elim (Bool-cases (assigns r op)) [
  | inl hit ↦ let (low, high) = reached-range r.base r.loops op hit in absurd (ground arith)
  | inr missed ↦ rw (elsewhere-unassigned line op rs here (ground arith), missed) refl
]

abbrev pub skipped : ℕ → List Rule → List Rule
skipped zero rs = rs
skipped (suc n) [] = []
skipped (suc n) (r ∷ rs) = skipped n rs

-- A rule that assigns the opcode decides, if all rules behind it are about other lines.
pub last_handler-at :
    (n line op : ℕ) (rs : List Rule) (r : Rule) (rest : List Rule)
    → skipped n rs ≡ r ∷ rest
    → op / 2 ^ 12 ≡ line
    → every (elsewhere line) rest ≡ true
    → assigns r op ≡ true
    → last_handler rs op ≡ some r.handler
last_handler-at zero line op rs r rest at_ here all hit =
    rw (at_, elsewhere-unassigned line op rest here all, hit) refl
last_handler-at (suc n) line op [] r rest at_ here all hit = ground arith
last_handler-at (suc n) line op (q ∷ rs) r rest at_ here all hit =
    rw (last_handler-at n line op rs r rest at_ here all hit) refl
