-- ===== src/Boards/Registers.antt =====
-- The register numbers that the boards hand to their chips, and whether the chips can take them.
use newmacemu.Common.{
  ℕ, ◌≡◌, Bool, true, false, ◌&&◌, ◌||◌, ltb, leb, ◌==◌, Option, none, some, List, [], ◌∷◌,
}
use newmacemu.Scc.{Scc, SccHost}
use newmacemu.Scc.Channels.{scc_read}
use newmacemu.Boards.{Chip, scc, iop_scc, oss, Model, oss_board, mcu_q900, mcu_q700, Case, wires}

abbrev pub is_some : {A : Type 0} → Option A → Bool
is_some none = false
is_some (some x) = true

-- The addresses at which a board hands SCC, or the processor in front of it, a number that it does not
-- know.
unfoldable pub is_missed : Model → ℕ → Bool
is_missed mcu_q700 addr = (wires 13 0x1f addr == 6) && leb 4 (wires 1 0x1f addr)
is_missed mcu_q900 addr = (wires 13 0x1f addr == 6) && leb 6 (wires 1 0x1f addr)
is_missed oss_board addr = (wires 13 0x1f addr == 2) && leb 6 (wires 1 0x1f addr)
is_missed _ addr = false

module _ {W : Type 0} (host : SccHost W) (s : Scc W) where
  -- Can the chip take the number in a read? SCC::read must not come to its unreachable branch, directly or
  -- through the default of IOP::read, and OSS_ctrl has an array of 0xff0 bytes. The other chips take any
  -- number, or refuse it with a BusError.
  abbrev pub handles : Chip → ℕ → Bool
  handles scc n = is_some (scc_read host n s)
  handles iop_scc n = ltb n 3 || n == 4 || n == 5 || is_some (scc_read host n s)
  handles oss n = ltb n 0xff0
  handles _ n = true

  unfoldable pub is_handled : Option (Chip × ℕ) → Bool
  is_handled none = true
  is_handled (some p) = handles (p.0) (p.1)

  -- Every case of the list that the number reaches is handled.
  Each : ℕ → ℕ → List Case → Type 0
  Each n addr [] = Unit {0}
  Each n addr (c ∷ cs) =
      ((n == c.number) ≡ true → handles c.chip (c.register addr) ≡ true) × Each n addr cs
