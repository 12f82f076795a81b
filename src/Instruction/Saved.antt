-- ===== src/Instruction/Saved.antt =====
-- src/cpu/op_move.cc: MOVEM of long words to (An) and back.
use newmacemu.Common.{
  ℕ, zero, suc, ◌+◌, ◌*◌, ◌%◌, ◌^◌, ◌≤◌, ◌<◌, ◌≡◌, refl, sym, subst, ap, ◌∙◌, arith, Bool, true,
  false, ◌&&◌, bit_and, bit, ltb, leb, ◌==◌, if◌then◌else◌, Bool-cases, inl, inr, long,
}
use newmacemu.Common.Mask.{bit_and-mod}
use newmacemu.Machine.{IsOff, Machine, Paging, ok}
use newmacemu.Bus.{Devices, read_be, write_be}
use newmacemu.Bus.Endian.{read_be-write_be, write_be-other}
use newmacemu.Memory.{Mmu, offset}
use newmacemu.Memory.Alignment.{IsPlain, IsBytes, read_l-ram, write_l-ram, write_be-IsBytes}
use newmacemu.Fetch.{get_r, set_r}
use newmacemu.Instruction.Movem.{each_register, stored_up, loaded, load_register}

-- The address behind register i, and RAM with its value.
abbrev next : ℕ → ℕ → ℕ → ℕ
next regs i a = if bit regs i then a + 4 else a

abbrev put : ℕ → ℕ → ℕ → (ℕ → ℕ) → (ℕ → ℕ) → (ℕ → ℕ)
put regs i a g p = if bit regs i then write_be long p a (g i) else p

-- The address behind n registers from i on, and RAM with their values.
abbrev pub last : ℕ → ℕ → ℕ → ℕ → ℕ
last regs zero i a = a
last regs (suc n) i a = last regs n (suc i) (next regs i a)

abbrev pub saved : ℕ → ℕ → ℕ → ℕ → (ℕ → ℕ) → (ℕ → ℕ) → (ℕ → ℕ)
saved regs zero i a g p = p
saved regs (suc n) i a g p = saved regs n (suc i) (next regs i a) g (put regs i a g p)

-- The machine with n registers from i on loaded.
abbrev pub restored : {Io : Type 0} → ℕ → ℕ → ℕ → (ℕ → ℕ) → Machine Io → Machine Io
restored regs zero i g m = m
restored regs (suc n) i g m = restored regs n (suc i) g (if bit regs i then set_r i (g i) m else m)

-- RAM holds the values.
abbrev pub Holds : ℕ → ℕ → ℕ → ℕ → (ℕ → ℕ) → (ℕ → ℕ) → Type 0
Holds regs zero i a g q = Unit
Holds regs (suc n) i a g q =
    (bit regs i ≡ true → read_be long q a ≡ g i) × Holds regs n (suc i) (next regs i a) g q

put-below : (regs i a : ℕ) (g p : ℕ → ℕ) (j : ℕ) → j < a → put regs i a g p j ≡ p j
put-below regs i a g p j h = elim (Bool-cases (bit regs i)) [
  | inl chosen ↦ rw chosen (write_be-other long p a (g i) j (inl h))
  | inr left ↦ rw left refl
]

next-above : (regs i a : ℕ) → a ≤ next regs i a
next-above regs i a = ground arith

saved-below : (regs n i a : ℕ) (g p : ℕ → ℕ) (j : ℕ) → j < a → saved regs n i a g p j ≡ p j
saved-below regs zero i a g p j h = refl
saved-below regs (suc n) i a g p j h =
    let up = next-above regs i a in
    saved-below regs n (suc i) (next regs i a) g (put regs i a g p) j (omega arith)
    ∙ put-below regs i a g p j h

read-saved :
    (regs n i a : ℕ) (g p : ℕ → ℕ) → read_be long (saved regs n i (a + 4) g p) a ≡ read_be long p a
unfolding read_be
read-saved regs n i a g p =
    rw
      (
        saved-below regs n i (a + 4) g p a (omega arith),
        saved-below regs n i (a + 4) g p (a + 1) (omega arith),
        saved-below regs n i (a + 4) g p (a + 2) (omega arith),
        saved-below regs n i (a + 4) g p (a + 3) (omega arith),
      )
      refl

pub saved-Holds :
    (regs n i a : ℕ) (g p : ℕ → ℕ)
    → ((j : ℕ) → g j < 2 ^ 32)
    → Holds regs n i a g (saved regs n i a g p)
saved-Holds regs zero i a g p small = tt
saved-Holds regs (suc n) i a g p small = (
  λ chosen. rw chosen (
      read-saved regs n (suc i) a g (write_be long p a (g i))
      ∙ read_be-write_be long p a (g i) (small i)),
  saved-Holds regs n (suc i) (next regs i a) g (put regs i a g p) small,
)

get_r-set_r :
    {Io : Type 0} (i j v : ℕ) (m : Machine Io)
    → i < 16
    → j < 16
    → get_r j (set_r i v m) ≡ (if j == i then v else get_r j m)
get_r-set_r i j v m h k =
    let mi : bit_and i 7 ≡ i % 8 = bit_and-mod 3 i in
    let mj : bit_and j 7 ≡ j % 8 = bit_and-mod 3 j in
    elim (Bool-cases (ltb i 8)) [
      | inl low ↦ elim (Bool-cases (ltb j 8)) [
        | inl same ↦ rw (low, same, mi, mj) ground arith
        | inr other ↦ rw (low, other) ground arith
      ]
      | inr high ↦ elim (Bool-cases (ltb j 8)) [
        | inl other ↦ rw (high, other) ground arith
        | inr same ↦ rw (high, same, mi, mj) ground arith
      ]
    ]

-- A run of loads or stores of n long words from a on stays in RAM.
abbrev pub HasSpace : {Io : Type 0} → ℕ → ℕ → Machine Io → Type 0
HasSpace n a m = (a + 4 * n ≤ m.ram_size) × IsPlain m × IsBytes m.ram

-- Loading a register leaves memory alone.
set_r-memory :
    {Io : Type 0} (i v : ℕ) (m : Machine Io) (P : (ℕ → ℕ) → ℕ → Paging → Type 0)
    → P m.ram m.ram_size m.paging
    → P (set_r i v m).ram (set_r i v m).ram_size (set_r i v m).paging
set_r-memory i v m P h = elim (Bool-cases (ltb i 8)) [ inl low ↦ rw low h | inr high ↦ rw high h ]

-- The registers of the range from i + 1 on, and register i, are those from i on.
pick_chosen :
    (i n j x x' y : ℕ) (b : Bool)
    → (j ≡ i → (b ≡ true) × (x' ≡ x))
    → (if leb (suc i) j && (ltb j (suc i + n) && b) then x else (if j == i then x' else y))
      ≡ (if leb i j && (ltb j (i + suc n) && b) then x else y)
pick_chosen i n j x x' y b h = elim (Bool-cases (j == i)) [
  | inl same ↦ let (taken, value) = h (ground arith) in ground arith
  | inr other ↦ ground arith
]

pick_left :
    (i n j x y : ℕ) (b : Bool)
    → (j ≡ i → b ≡ false)
    → (if leb (suc i) j && (ltb j (suc i + n) && b) then x else y)
      ≡ (if leb i j && (ltb j (i + suc n) && b) then x else y)
pick_left i n j x y b h = elim (Bool-cases (j == i)) [
  | inl same ↦ let skipped = h (ground arith) in ground arith
  | inr other ↦ ground arith
]

pub get_r-restored :
    {Io : Type 0} (regs n i j : ℕ) (g : ℕ → ℕ) (m : Machine Io)
    → i + n ≤ 16
    → j < 16
    → get_r j (restored regs n i g m)
      ≡ (if leb i j && (ltb j (i + n) && bit regs j) then g j else get_r j m)
get_r-restored regs zero i j g m h k = ground arith
get_r-restored regs (suc n) i j g m h k = elim (Bool-cases (bit regs i)) [
  | inl chosen ↦
      ap (λ c. get_r j (restored regs n (suc i) g (if c then set_r i (g i) m else m))) chosen
      ∙ (get_r-restored regs n (suc i) j g (set_r i (g i) m) (omega arith) k
          ∙ rw (get_r-set_r i j (g i) m (omega arith) k) (
              pick_chosen i n j (g j) (g i) (get_r j m) (bit regs j)
                λ same. (ap (bit regs) same ∙ chosen, sym (ap g same))))
  | inr left ↦
      ap (λ c. get_r j (restored regs n (suc i) g (if c then set_r i (g i) m else m))) left
      ∙ (get_r-restored regs n (suc i) j g m (omega arith) k
          ∙ pick_left i n j (g j) (get_r j m) (bit regs j) λ same. ap (bit regs) same ∙ left)
]

module _ {Io : Type 0} (devices : Devices Io) (mmu : Mmu Io) where
  put-IsBytes : (regs i a : ℕ) (g p : ℕ → ℕ) → IsBytes p → IsBytes (put regs i a g p)
  put-IsBytes regs i a g p bytes = elim (Bool-cases (bit regs i)) [
    | inl chosen ↦ rw chosen (write_be-IsBytes devices mmu long p a (g i) bytes)
    | inr left ↦ rw left bytes
  ]

  pub saved-IsBytes : (regs n i a : ℕ) (g p : ℕ → ℕ) → IsBytes p → IsBytes (saved regs n i a g p)
  saved-IsBytes regs zero i a g p bytes = bytes
  saved-IsBytes regs (suc n) i a g p bytes =
      saved-IsBytes regs n (suc i) (next regs i a) g (put regs i a g p)
        (put-IsBytes regs i a g p bytes)

  offset-next : (a n : ℕ) (m : Machine Io) → HasSpace (suc n) a m → offset a 4 ≡ a + 4
  offset-next a n m (room, (small, off), bytes) = omega arith

  pub each_register-stored :
      (regs n i a : ℕ) (m : Machine Io)
      → HasSpace n a m
      → ((j : ℕ) → get_r j m < 2 ^ 32)
      → each_register (stored_up devices mmu long) regs n i a m
        ≡ ok (last regs n i a) (record m { ram = saved regs n i a (λ j. get_r j m) m.ram })
  unfolding each_register
  each_register-stored regs zero i a m space small = refl
  each_register-stored regs (suc n) i a m space small = elim (Bool-cases (bit regs i)) [
    | inl chosen ↦
        let (room, plain, bytes) = space in
        let whole : get_r i m % 2 ^ 32 ≡ get_r i m = omega (arith, small i) in
        rw
          (
            chosen,
            whole,
            write_l-ram devices mmu a (get_r i m) m (omega arith, plain),
            offset-next a n m space,
          )
          (each_register-stored regs n (suc i) (a + 4)
            (record m { ram = write_be long m.ram a (get_r i m) })
            (omega arith, plain, write_be-IsBytes devices mmu long m.ram a (get_r i m) bytes) small)
    | inr left ↦
        let (room, plain, bytes) = space in
        rw left (each_register-stored regs n (suc i) a m (omega arith, plain, bytes) small)
  ]

  pub each_register-loaded :
      (regs n i a : ℕ) (g : ℕ → ℕ) (m : Machine Io)
      → HasSpace n a m
      → Holds regs n i a g m.ram
      → each_register (loaded devices mmu long) regs n i a m
        ≡ ok (last regs n i a) (restored regs n i g m)
  unfolding each_register load_register
  each_register-loaded regs zero i a g m space held = refl
  each_register-loaded regs (suc n) i a g m space (here, there) = elim (Bool-cases (bit regs i)) [
    | inl chosen ↦
        let (room, plain, bytes) = space in
        let up : next regs i a ≡ a + 4 = rw chosen refl in
        let held = subst (λ x. Holds regs n (suc i) x g m.ram) up there in
        let (space', held') =
          set_r-memory i (g i) m
            (λ q size paging.
              ((a + 4 + 4 * n ≤ size) × ((size ≤ 2 ^ 30) × IsOff paging) × IsBytes q)
              × Holds regs n (suc i) (a + 4) g q)
            ((omega arith, plain, bytes), held) in
        rw
          (
            chosen,
            read_l-ram devices mmu a m (omega arith, plain) bytes,
            here chosen,
            offset-next a n m space,
          )
          (each_register-loaded regs n (suc i) (a + 4) g (set_r i (g i) m) space' held')
    | inr left ↦
        let (room, plain, bytes) = space in
        let same : next regs i a ≡ a = rw left refl in
        rw left (
          each_register-loaded regs n (suc i) a g m (omega arith, plain, bytes)
            (subst (λ x. Holds regs n (suc i) x g m.ram) same there))
  ]
