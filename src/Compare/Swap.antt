-- ===== src/Compare/Swap.antt =====
-- CAS_L on RAM, while no translation is enabled.
use newmacemu.Common.{
  ℕ, ◌+◌, ◌%◌, ◌^◌, ◌<◌, ◌≡◌, refl, ap, ◌∙◌, arith, Bool, true, false, ◌==◌, if◌then◌else◌,
  Bool-cases, inl, inr, long,
}
use newmacemu.Ccr.{Ccr, test}
use newmacemu.Arithmetic.{cmp}
use newmacemu.Machine.{Machine, Outcome, ok, bind, update}
use newmacemu.Bus.{Devices, read_be, write_be}
use newmacemu.Memory.{Mmu}
use newmacemu.Memory.Access.{write_l}
use newmacemu.Memory.Alignment.{InRam, IsBytes, read_l-ram, write_l-ram}
use newmacemu.Stack.{store, trace_branch}
use newmacemu.Compare.{cas, stored}

cmp-zero : (f : Ccr) (a b : ℕ) → a < 2 ^ 32 → b < 2 ^ 32 → (cmp long f a (b % 2 ^ 32)).z ≡ (a == b)
unfolding cmp test
cmp-zero f a b h k = ground arith

store-long : (old v : ℕ) → old < 2 ^ 32 → store long old v ≡ v
unfolding store
store-long old v h = omega arith

read_be-lt : (p : ℕ → ℕ) (i : ℕ) → IsBytes p → read_be long p i < 2 ^ 32
unfolding read_be
read_be-lt p i bytes = omega (arith, bytes i, bytes (i + 1), bytes (i + 2), bytes (i + 3))

choose_first : {A : Type 0} {b : Bool} (x y : A) → b ≡ true → (if b then x else y) ≡ x
choose_first x y h = rw h refl

choose_second : {A : Type 0} {b : Bool} (x y : A) → b ≡ false → (if b then x else y) ≡ y
choose_second x y h = rw h refl

same_number : (a b : ℕ) → (a == b) ≡ true → b ≡ a
same_number a b h = ground arith

abbrev traced : {Io : Type 0} → Machine Io → Machine Io
traced m = record m { must_trace = if m.t == 1 then true else m.must_trace }

trace_branch-traced : {Io : Type 0} (m : Machine Io) → trace_branch m ≡ ok tt (traced m)
unfolding trace_branch
trace_branch-traced m = elim (Bool-cases (m.t == 1)) [
  | inl now ↦ rw now refl
  | inr quiet ↦ rw quiet refl
]

written : (p : ℕ → ℕ) (i v : ℕ) → update p i v i ≡ v
written p i v = ground arith

module _ {Io : Type 0} (devices : Devices Io) (mmu : Mmu Io) where
  -- With no translation enabled, the operand at `cpu.EA` in RAM, and a 32-bit
  -- register, CAS_L ends normally; Z says whether memory and the register were equal; memory takes
  -- the new value if they were and stays as it was if not; the register holds what memory held.
  pub cas_l_lem :
      (dc du : ℕ) (m : Machine Io)
      → InRam long m.ea m
      → IsBytes m.ram
      → m.d dc < 2 ^ 32
      → (after : Machine Io) × (cas devices mmu long m.ea dc du m ≡ ok tt after)
        × (after.ccr.z ≡ (read_be long m.ram m.ea == m.d dc))
        × (after.ram
            ≡ (if read_be long m.ram m.ea == m.d dc then write_be long m.ram m.ea du else m.ram))
        × (after.d dc ≡ read_be long m.ram m.ea)
  unfolding cas trace_branch
  cas_l_lem dc du m inside bytes small =
      let old : ℕ = read_be long m.ram m.ea in
      let flags : Ccr = cmp long m.ccr old (m.d dc % 2 ^ 32) in
      let tested : flags.z ≡ (old == m.d dc) =
        cmp-zero m.ccr old (m.d dc) (read_be-lt m.ram m.ea bytes) small in
      elim (Bool-cases (old == m.d dc)) [
        | inl equal ↦
            let zero_set : flags.z ≡ true = tested ∙ equal in
            let m1 : Machine Io = record m { ccr = flags } in
            let m2 : Machine Io = record m1 { ram = write_be long m.ram m.ea du } in
            (
              traced m2,
              rw (read_l-ram devices mmu m.ea m inside bytes) (
                  ap (λ (o : Outcome Io (Unit {0})). bind o (λ done. trace_branch))
                    (choose_first (write_l devices mmu m.ea du m1) (stored long dc old m1) zero_set
                      ∙ write_l-ram devices mmu m.ea du m1 inside)
                  ∙ trace_branch-traced m2),
              tested,
              rw equal refl,
              same_number old (m.d dc) equal,
            )
        | inr differ ↦
            let zero_clear : flags.z ≡ false = tested ∙ differ in
            let m1 : Machine Io = record m { ccr = flags } in
            let m2 : Machine Io = record m {
              ccr = flags;
              d = update m.d dc (store long (m.d dc) old);
            } in
            (
              traced m2,
              rw (read_l-ram devices mmu m.ea m inside bytes) (
                  ap (λ (o : Outcome Io (Unit {0})). bind o (λ done. trace_branch))
                    (choose_second (write_l devices mmu m.ea du m1) (ok tt m2) zero_clear)
                  ∙ trace_branch-traced m2),
              tested,
              rw differ refl,
              written m.d dc (store long (m.d dc) old) ∙ store-long (m.d dc) old small,
            )
      ]
