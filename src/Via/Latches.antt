-- ===== src/Via/Latches.antt =====
-- What is written to the adapter's registers and read again.
use newmacemu.Common.{
  ℕ, zero, suc, ◌+◌, ◌||◌, ap₂, ◌*◌, ◌/◌, ◌%◌, ◌^◌, ◌<◌, ◌≡◌, refl, ap, ◌∙◌, arith, Bool, true,
  false, bit_or, bit, ltb, ◌==◌, if◌then◌else◌, Bool-cases, inl, inr,
}
use newmacemu.Common.Bits.{bit-bit_or}
use newmacemu.Common.Mask.{bit_or-add, bit_or_comm, bit_and-mod, bit_and-shifted}
use newmacemu.Common.Select.{bit-pow}
use newmacemu.Via.{Via, put, to_ulong, loop, Port}
use newmacemu.Via.Bytes.{
  to_ulong-bit, to_ulong_ext, bit-to_ulong, acr_byte-set_acr, pcr_byte-set_pcr,
}
use newmacemu.Via.Registers.{
  read, write, direct_a, direct_b, set_enables, acr_byte, set_acr, pcr_byte, set_pcr, low_latch,
  high_latch,
}

-- The registers that read as they were written: the directions, ACR and PCR.
pub data IsStored : ℕ → Type 0 where
  by_dirb : IsStored 2
  by_dira : IsStored 3
  by_acr : IsStored 11
  by_pcr : IsStored 12

-- Bits stored one after the other.
one_more :
    (v n j : ℕ) (old : Bool)
    → (if j == n then bit v n else if ltb j n then bit v j else old)
      ≡ (if ltb j (suc n) then bit v j else old)
one_more v n j old = elim (Bool-cases (j == n)) [
  | inl same ↦ let e : j ≡ n = ground arith in rw (e) (ground arith)
  | inr other ↦ rw other (ground arith)
]

stored_byte :
    (f : ℕ → Bool) (v : ℕ) → v < 256 → ((j : ℕ) → j < 8 → f j ≡ bit v j) → to_ulong 8 f ≡ v
stored_byte f v h same = to_ulong_ext 8 f (bit v) same ∙ to_ulong-bit 8 v ∙ omega arith

enabled_bit : (f : ℕ → Bool) (i : ℕ) → i < 7 → bit (bit_or 0x80 (to_ulong 7 f)) i ≡ f i
enabled_bit f i h =
    bit-bit_or i 0x80 (to_ulong 7 f) ∙ ap₂ ◌||◌ (bit-pow 7 i) (bit-to_ulong 7 i f) ∙ ground arith

top_bit : (f : ℕ → Bool) → bit (bit_or 0x80 (to_ulong 7 f)) 7 ≡ true
top_bit f = bit-bit_or 7 0x80 (to_ulong 7 f) ∙ ground arith

pub low_set : (latch v : ℕ) → v < 256 → low_latch latch v ≡ latch / 2 ^ 8 % 2 ^ 8 * 2 ^ 8 + v
low_set latch v h =
    rw (bit_and-shifted 8 latch 0xff, bit_and-mod 8 (latch / 2 ^ 8))
      (bit_or-add 8 (latch / 2 ^ 8 % 2 ^ 8) v h)

pub high_set : (latch v : ℕ) → v < 256 → high_latch latch v ≡ v * 2 ^ 8 + latch % 2 ^ 8
high_set latch v h = rw (bit_and-mod 8 latch) (
    bit_or_comm 16 (latch % 2 ^ 8) (v * 2 ^ 8) (omega arith) (omega arith)
    ∙ bit_or-add 8 v (latch % 2 ^ 8) (omega arith))

module _ {S : Type 0} (port : Port S) where
  kept_b :
      (b x : Bool) (i : ℕ) (s : S)
      → (port.via (if b then port.write_pb i x s else s)).dirb ≡ (port.via s).dirb
  kept_b true x i s = port.keeps_dirb i x s
  kept_b false x i s = refl

  kept_a :
      (b x : Bool) (i : ℕ) (s : S)
      → (port.via (if b then port.write_pa i x s else s)).dira ≡ (port.via s).dira
  kept_a true x i s = port.keeps_dira i x s
  kept_a false x i s = refl

  step_dirb :
      (v i : ℕ) (s : S) → (port.via (direct_b port v i s)).dirb ≡ put (port.via s).dirb i (bit v i)
  step_dirb v i s =
      let changed : Via = record (port.via s) { dirb = put (port.via s).dirb i (bit v i) } in
      let s1 = port.put_via changed s in
      kept_b (bit v i) ((port.via s1).orb i) i s1
      ∙ ap (λ (x : Via). x.dirb) (port.via-put_via changed s)

  step_dira :
      (v i : ℕ) (s : S) → (port.via (direct_a port v i s)).dira ≡ put (port.via s).dira i (bit v i)
  step_dira v i s =
      let changed : Via = record (port.via s) { dira = put (port.via s).dira i (bit v i) } in
      let s1 = port.put_via changed s in
      kept_a (bit v i) ((port.via s1).ora i) i s1
      ∙ ap (λ (x : Via). x.dira) (port.via-put_via changed s)

  loop_dirb :
      (n v j : ℕ) (s : S)
      → (port.via (loop (direct_b port v) n s)).dirb j
        ≡ (if ltb j n then bit v j else (port.via s).dirb j)
  loop_dirb zero v j s = ground arith
  loop_dirb (suc n) v j s =
      ap (λ (f : ℕ → Bool). f j) (step_dirb v n (loop (direct_b port v) n s))
      ∙ ap (λ (b : Bool). if j == n then bit v n else b) (loop_dirb n v j s)
      ∙ one_more v n j ((port.via s).dirb j)

  loop_dira :
      (n v j : ℕ) (s : S)
      → (port.via (loop (direct_a port v) n s)).dira j
        ≡ (if ltb j n then bit v j else (port.via s).dira j)
  loop_dira zero v j s = ground arith
  loop_dira (suc n) v j s =
      ap (λ (f : ℕ → Bool). f j) (step_dira v n (loop (direct_a port v) n s))
      ∙ ap (λ (b : Bool). if j == n then bit v n else b) (loop_dira n v j s)
      ∙ one_more v n j ((port.via s).dira j)

  -- A byte written to one of the two direction registers, ACR or PCR is read back from it, whatever
  -- the pins do.
  pub read-write_stored :
      (n now later v : ℕ) (s : S)
      → IsStored n
      → v < 256
      → (read port later n (write port now n v s)).0 ≡ v
  unfolding read write
  read-write_stored _ now later v s by_dirb h =
      stored_byte (port.via (loop (direct_b port v) 8 s)).dirb v h
        λ j small. loop_dirb 8 v j s ∙ ground arith
  read-write_stored _ now later v s by_dira h =
      stored_byte (port.via (loop (direct_a port v) 8 s)).dira v h
        λ j small. loop_dira 8 v j s ∙ ground arith
  read-write_stored _ now later v s by_acr h =
      ap (λ (x : Via). acr_byte x.acr)
        (port.via-put_via (record (port.via s) { acr = set_acr v }) s)
      ∙ acr_byte-set_acr v h
  read-write_stored _ now later v s by_pcr h =
      ap (λ (x : Via). pcr_byte x.pcr)
        (port.via-put_via (record (port.via s) { pcr = set_pcr v }) s)
      ∙ pcr_byte-set_pcr v h

  -- The enables as register 14 reads them: a write sets the enables of its bits if its top bit is set,
  -- clears them if not, and leaves the others; bit 7 reads as one.
  pub read-write_enables :
      (now later v i : ℕ) (s : S)
      → i < 7
      → (bit (read port later 14 (write port now 14 v s)).0 i
          ≡ (if bit v i then bit v 7 else (port.via s).enables i))
        × (bit (read port later 14 (write port now 14 v s)).0 7 ≡ true)
  unfolding read write set_enables
  read-write_enables now later v i s h =
      let set : Via = record (port.via s) { enables = set_enables v (port.via s).enables } in
      let f = (port.via (port.put_via set s)).enables in
      let now_set : f i ≡ set_enables v (port.via s).enables i =
        ap (λ (x : Via). x.enables i) (port.via-put_via set s) in
      (enabled_bit f i h ∙ now_set ∙ ground arith, top_bit f)
