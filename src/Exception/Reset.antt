-- ===== src/Exception/Reset.antt =====
-- src/cpu/exception.cc: RESET.
use newmacemu.Common.{ℕ, Bool, true, false}
use newmacemu.Machine.{Ttr, AtcEntry, Control, Paging, M, bind, update}
use newmacemu.Bus.{Devices}
use newmacemu.Memory.{Mmu}
use newmacemu.Stack.{jump}
use newmacemu.Status.{load_sp}
use newmacemu.Exception.{ex_readl}

-- Every register and every line invalid.
abbrev disabled : (ℕ → Ttr) → ℕ → Ttr
disabled ttr k = record (ttr k) { e = false }

abbrev emptied : (Bool → ℕ → AtcEntry) → Bool → ℕ → AtcEntry
emptied atc sys k = record (atc sys k) { v = false }

abbrev pub reset_paging : Paging → Paging
reset_paging p = record p {
  ittr = disabled p.ittr;
  dttr = disabled p.dttr;
  i_atc = emptied p.i_atc;
  d_atc = emptied p.d_atc;
}

abbrev pub reset_control : Control → Control
reset_control c = record c { m = false; i = 7; vbr = 0; cacr_de = false; cacr_ie = false }

module _ {Io : Type 0} (devices : Devices Io) (mmu : Mmu Io) where
  unfoldable pub reset_cpu : M Io (Unit {0})
  unfolding load_sp ex_readl jump
  reset_cpu m =
      let m1 = record m {
        s = true;
        t = 0;
        control = reset_control m.control;
        paging = reset_paging m.paging;
      } in
      bind (ex_readl devices mmu 0 (load_sp m1)) λ top m2.
        bind (ex_readl devices mmu 4 (record m2 { a = update m2.a 7 top })) λ start. jump start
