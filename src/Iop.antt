-- ===== src/Iop.antt =====
-- src/chip/iop.cc with include/chip/iop.hpp: the processors in front of SCC and SWIM. The virtual functions
-- of class IOP are the interface `IopBase`.
use newmacemu.Common.{
  ℕ, ◌+◌, ◌*◌, ◌/◌, ◌%◌, ◌^◌, ◌<◌, ◌≡◌, refl, sym, ap, ap₂, ◌∙◌, arith, Bool, true, false, bit_or,
  bit_and, bit, Bool-cases, inl, inr, ==_iff, ◌==◌, ◌||◌, if◌then◌else◌,
}
use newmacemu.Common.Mask.{bit_and-mod, bit_and-shifted, bit_or-add, bit_or_comm}
use newmacemu.Machine.{update}

pub record Iop (B : Type 0) : Type 0 where
  pub program_counter : ℕ
  pub ram_address : ℕ
  pub status : ℕ
  pub mem : ℕ → ℕ
  pub running : Bool
  pub base : B

-- `readBase` and `writeBase`.
pub record IopBase (B : Type 0) : Type 0 where
  pub read_base : ℕ → B → ℕ × B
  pub write_base : ℕ → ℕ → B → B

abbrev pub advance : {B : Type 0} → Iop B → Iop B
advance s = if bit s.status 1 then record s { ram_address = (s.ram_address + 1) % 2 ^ 16 } else s

module _ {B : Type 0} (methods : IopBase B) where
  -- IOP::read and IOP::write.
  unfoldable pub iop_read : ℕ → Iop B → ℕ × Iop B
  iop_read addr s =
      if addr == 0
      then (s.ram_address / 2 ^ 8 % 2 ^ 8, s)
      else if addr == 1
      then (s.ram_address % 2 ^ 8, s)
      else if addr == 2
      then (s.status, s)
      else if addr == 4 || addr == 5
      then (s.mem s.ram_address, advance s)
      else (let r = methods.read_base (addr % 2 ^ 8) s.base in (r.0, record s { base = r.1 }))

  unfoldable pub iop_write : ℕ → ℕ → Iop B → Iop B
  iop_write addr v s =
      if addr == 0
      then record s { ram_address = bit_or (bit_and s.ram_address 0xff) (v * 2 ^ 8) }
      else if addr == 1
      then record s { ram_address = bit_or (bit_and s.ram_address 0xff00) v }
      else if addr == 2
      then (if bit v 2
          then record s { running = true; status = v }
          else record s { program_counter = 0; running = false; status = v })
      else if addr == 4 || addr == 5
      then advance (record s { mem = update s.mem s.ram_address v })
      else record s { base = methods.write_base (addr % 2 ^ 8) v s.base }

  -- The address set by its high and its low byte.
  abbrev pub seek : ℕ → ℕ → Iop B → Iop B
  seek high low s = iop_write 1 low (iop_write 0 high s)

address :
    (a high low : ℕ)
    → high < 256
    → low < 256
    → bit_or (bit_and (bit_or (bit_and a 0xff) (high * 2 ^ 8)) 0xff00) low ≡ high * 2 ^ 8 + low
address a high low h l =
    let rest : bit_and a 0xff < 2 ^ 8 = omega (arith, bit_and-mod 8 a) in
    let x : bit_or (bit_and a 0xff) (high * 2 ^ 8) ≡ high * 2 ^ 8 + bit_and a 0xff =
      bit_or_comm 16 (bit_and a 0xff) (high * 2 ^ 8) (omega arith) (omega arith)
      ∙ bit_or-add 8 high (bit_and a 0xff) rest in
    let top : bit_and (high * 2 ^ 8 + bit_and a 0xff) 0xff00 ≡ high * 2 ^ 8 = omega (
      arith,
      bit_and-shifted 8 (high * 2 ^ 8 + bit_and a 0xff) 0xff,
      bit_and-mod 8 ((high * 2 ^ 8 + bit_and a 0xff) / 2 ^ 8),
    ) in
    ap (λ y. bit_or (bit_and y 0xff00) low) x ∙ ap (λ y. bit_or y low) top ∙ bit_or-add 8 high low l

module _ {B : Type 0} (methods : IopBase B) where
  seek-ram_address :
      (high low : ℕ) (s : Iop B)
      → high < 256
      → low < 256
      → (seek methods high low s).ram_address ≡ high * 2 ^ 8 + low
  unfolding iop_write
  seek-ram_address high low s h l = address s.ram_address high low h l

  seek-mem : (high low : ℕ) (s : Iop B) → (seek methods high low s).mem ≡ s.mem
  unfolding iop_write
  seek-mem high low s = refl

  stored : (v : ℕ) (s : Iop B) → (iop_write methods 4 v s).mem s.ram_address ≡ v
  unfolding iop_write
  stored v s =
      let same : (s.ram_address == s.ram_address) ≡ true =
        (==_iff s.ram_address s.ram_address).1 refl in
      elim (Bool-cases (bit s.status 1)) [
        | inl on ↦ rw (on, same) refl
        | inr off ↦ rw (off, same) refl
      ]

  iop_read-4 : (s : Iop B) → (iop_read methods 4 s).0 ≡ s.mem s.ram_address
  unfolding iop_read
  iop_read-4 s = refl

  -- A byte is written through register 4 after the address was set by registers 0 and 1: with the address
  -- set again, register 4 reads the byte, and registers 0 and 1 read what they were set to, whether or
  -- not the address steps by itself.
  pub iop_read-iop_write :
      (high low v : ℕ) (s : Iop B)
      → high < 256
      → low < 256
      → ((iop_read methods 4
            (seek methods high low (iop_write methods 4 v (seek methods high low s)))).0
          ≡ v)
        × ((iop_read methods 0 (seek methods high low s)).0 ≡ high)
        × ((iop_read methods 1 (seek methods high low s)).0 ≡ low)
  unfolding iop_read
  iop_read-iop_write high low v s h l =
      let here = seek methods high low s in
      let place = seek-ram_address high low s h l in
      let after = iop_write methods 4 v here in
      (
        iop_read-4 (seek methods high low after)
            ∙ ap₂ (λ m a. m a) (seek-mem high low after)
                (seek-ram_address high low after h l ∙ sym place)
            ∙ stored v here,
        rw place (omega arith),
        rw place (omega arith),
      )
