-- ===== src/Paging/Erased.antt =====
-- What the instruction cache forgets: the loops of cinvl_i and cinvp_i.
use newmacemu.Common.{
  ℕ, zero, suc, ◌+◌, ◌-◌, ◌*◌, ◌/◌, ◌%◌, ◌^◌, ◌<◌, ◌≤◌, ◌≡◌, refl, ap, ◌∙◌, arith, Bool, false,
  ◌&&◌, bit_and, not32, ltb, leb, ◌==◌, if◌then◌else◌, Bool-cases, inl, inr,
}
use newmacemu.Common.Mask.{bit_and-mod, bit_and-shifted}
use newmacemu.Machine.{Paging}
use newmacemu.Paging.Flush.{page_size, erase_until, erase_block, cinvl_i, cinvp_i}

-- Is the address one of those from b on, two apart and below the end?
abbrev pub in_steps : ℕ → ℕ → ℕ → Bool
in_steps b end j = leb b j && ltb j end && j % 2 == b % 2

-- The fuel of a round for each two bytes is enough: every address of the steps is forgotten.
pub erase_until_lem :
    (fuel b end : ℕ) (table : ℕ → Bool) (j : ℕ)
    → end ≤ b + 2 * fuel
    → end < 2 ^ 32
    → end % 2 ≡ b % 2
    → erase_until fuel b end table j ≡ (if in_steps b end j then false else table j)
unfolding erase_until
erase_until_lem zero b end table j enough small even = ground arith
erase_until_lem (suc fuel) b end table j enough small even = elim (Bool-cases (ltb b end)) [
  | inr done ↦ rw done (ground arith)
  | inl more ↦
      let next : (b + 2) % 2 ^ 32 ≡ b + 2 = ground arith in
      rw (more, next)
        (erase_until_lem fuel (b + 2) end (λ i. if i == b then false else table i) j (omega arith)
            small (omega arith)
          ∙ ground arith)
]

clear_line : (base : ℕ) → base < 2 ^ 32 → bit_and base (not32 0xf) ≡ base / 2 ^ 4 * 2 ^ 4
clear_line base h =
    bit_and-shifted 4 base (2 ^ 28 - 1)
    ∙ ap (λ (t : ℕ). t * 2 ^ 4) (bit_and-mod 28 (base / 2 ^ 4) ∙ omega arith)

clear_small : (base : ℕ) → base < 2 ^ 32 → bit_and base (not32 0xfff) ≡ base / 0x1000 * 0x1000
clear_small base h =
    bit_and-shifted 12 base (2 ^ 20 - 1)
    ∙ ap (λ (t : ℕ). t * 2 ^ 12) (bit_and-mod 20 (base / 2 ^ 12) ∙ omega arith)

clear_large : (base : ℕ) → base < 2 ^ 32 → bit_and base (not32 0x1fff) ≡ base / 0x2000 * 0x2000
clear_large base h =
    bit_and-shifted 13 base (2 ^ 19 - 1)
    ∙ ap (λ (t : ℕ). t * 2 ^ 13) (bit_and-mod 19 (base / 2 ^ 13) ∙ omega arith)

-- The even addresses of a block, unless the block ends at the end of the address space.
abbrev pub forgotten : ℕ → ℕ → ℕ → Bool
forgotten start size j = ltb (start + size) (2 ^ 32) && in_steps start (start + size) j

nothing : (fuel b : ℕ) (table : ℕ → Bool) (i : ℕ) → erase_until fuel b 0 table i ≡ table i
unfolding erase_until
nothing zero b table i = refl
nothing (suc fuel) b table i = let stop : ltb b 0 ≡ false = ground arith in rw stop refl

block :
    (start size : ℕ) (p : Paging) (j : ℕ)
    → start < 2 ^ 32
    → start + size ≤ 2 ^ 32
    → size % 2 ≡ 0
    → (erase_block start size p).jit_tables j
      ≡ (if forgotten start size j then false else p.jit_tables j)
block start size p j low fits even = elim (Bool-cases (ltb (start + size) (2 ^ 32))) [
  | inl inside ↦
      let end : (start + size) % 2 ^ 32 ≡ start + size = ground arith in
      rw (inside, end)
        (erase_until_lem (size / 2 + 1) start (start + size) p.jit_tables j (omega arith)
          (ground arith) (omega arith))
  | inr last ↦
      let end : (start + size) % 2 ^ 32 ≡ 0 = ground arith in
      rw (last, end) (nothing (size / 2 + 1) start p.jit_tables j)
]

-- The instructions on one line and on one page of the instruction cache forget the compiled code of
-- every even address of the line or page, and no other, but forget nothing of the last line or page of
-- the address space.
pub cinv_i-forgets :
    (base : ℕ) (p : Paging) (j : ℕ)
    → base < 2 ^ 32
    → ((cinvl_i base p).jit_tables j
        ≡ (if forgotten (base / 16 * 16) 16 j then false else p.jit_tables j))
      × ((cinvp_i base p).jit_tables j ≡ (
          if forgotten (base / page_size p * page_size p) (page_size p) j
          then false
          else p.jit_tables j))
unfolding cinvl_i cinvp_i
cinv_i-forgets base p j h = (
  rw (clear_line base h) (block (base / 16 * 16) 16 p j (omega arith) (omega arith) refl),
  elim (Bool-cases p.tcr_p) [
    | inl large ↦
        rw (large, clear_large base h)
          (block (base / 0x2000 * 0x2000) 0x2000 p j (omega arith) (omega arith) refl)
    | inr small ↦
        rw (small, clear_small base h)
          (block (base / 0x1000 * 0x1000) 0x1000 p j (omega arith) (omega arith) refl)
  ],
)
