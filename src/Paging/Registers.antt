-- ===== src/Paging/Registers.antt =====
-- src/cpu/68040_mmu.cc, its last part: movec_from_cr_impl, movec_to_cr_impl and op_ptest.
use newmacemu.Common.{
  ℕ, ◌*◌, ◌/◌, ◌%◌, ◌^◌, Bool, true, false, Option, none, some, bit_and, bit_or, bit, to_num, not32,
  ◌==◌, if◌then◌else◌,
}
use newmacemu.Machine.{Machine, Ttr, ok, M, bind, modify, update}
use newmacemu.Bus.{Devices}
use newmacemu.Paging.{get_ttr, set_ttr, value, line_of, put_line}
use newmacemu.Paging.Search.{ptest}

-- The labels of the two switches.
pub data ControlRegister : Type 0 where
  sfc dfc cacr tcr itt0 itt1 dtt0 dtt1 usp vbr msp isp mmusr urp srp : ControlRegister

-- `switch(extw)`; `none` is its default label.
unfoldable pub control_register : ℕ → Option ControlRegister
control_register extw =
    if extw == 0
    then some sfc
    else if extw == 1
    then some dfc
    else if extw == 2
    then some cacr
    else if extw == 3
    then some tcr
    else if extw == 4
    then some itt0
    else if extw == 5
    then some itt1
    else if extw == 6
    then some dtt0
    else if extw == 7
    then some dtt1
    else if extw == 0x800
    then some usp
    else if extw == 0x801
    then some vbr
    else if extw == 0x803
    then some msp
    else if extw == 0x804
    then some isp
    else if extw == 0x805
    then some mmusr
    else if extw == 0x806
    then some urp
    else if extw == 0x807
    then some srp
    else none

-- One of two transparent translation registers is written.
abbrev pub put_ttr : (ℕ → Ttr) → ℕ → ℕ → ℕ → Ttr
put_ttr f k v j = if j == k then set_ttr v else f j

module _ {Io : Type 0} where
  -- What a case of movec_from_cr_impl writes to `*rn`, with the state it leaves.
  unfoldable pub read_control : ControlRegister → Machine Io → ℕ × Machine Io
  read_control sfc m = (m.sfc, m)
  read_control dfc m = (m.dfc, m)
  read_control cacr m =
      (bit_or (to_num m.control.cacr_de * 2 ^ 31) (to_num m.control.cacr_ie * 2 ^ 15), m)
  read_control tcr m = (bit_or (to_num m.paging.tcr_e * 2 ^ 15) (to_num m.paging.tcr_p * 2 ^ 14), m)
  read_control itt0 m = (get_ttr (m.paging.ittr 0), m)
  read_control itt1 m = (get_ttr (m.paging.ittr 1), m)
  read_control dtt0 m = (get_ttr (m.paging.dttr 0), m)
  read_control dtt1 m = (get_ttr (m.paging.dttr 1), m)
  read_control usp m = (m.control.usp, m)
  read_control vbr m = (m.control.vbr, m)
  read_control msp m =
      let c = if m.control.m then record (m.control) { msp = m.a 7 } else m.control in
      (c.msp, record m { control = c })
  read_control isp m =
      let c = if m.control.m then m.control else record (m.control) { isp = m.a 7 } in
      (c.isp, record m { control = c })
  read_control mmusr m = (m.paging.mmusr, m)
  read_control urp m = (m.paging.urp, m)
  read_control srp m = (m.paging.srp, m)

  abbrev pub control_read : Option ControlRegister → Machine Io → Option (ℕ × Machine Io)
  control_read none m = none
  control_read (some r) m = some (read_control r m)

  unfoldable pub movec_from_cr_impl : ℕ → Machine Io → Option (ℕ × Machine Io)
  movec_from_cr_impl extw m = control_read (control_register extw) m

  -- A case of movec_to_cr_impl.
  unfoldable pub write_control : ControlRegister → ℕ → Machine Io → Machine Io
  write_control sfc v m = record m { sfc = bit_and v 7 }
  write_control dfc v m = record m { dfc = bit_and v 7 }
  write_control cacr v m = record m {
    control = record (m.control) { cacr_de = bit v 31; cacr_ie = bit v 15 };
  }
  write_control tcr v m = record m {
    paging = record (m.paging) { tcr_e = bit v 15; tcr_p = bit v 14 };
  }
  write_control itt0 v m = record m {
    paging = record (m.paging) { ittr = put_ttr m.paging.ittr 0 v };
  }
  write_control itt1 v m = record m {
    paging = record (m.paging) { ittr = put_ttr m.paging.ittr 1 v };
  }
  write_control dtt0 v m = record m {
    paging = record (m.paging) { dttr = put_ttr m.paging.dttr 0 v };
  }
  write_control dtt1 v m = record m {
    paging = record (m.paging) { dttr = put_ttr m.paging.dttr 1 v };
  }
  write_control usp v m = record m { control = record (m.control) { usp = v } }
  write_control vbr v m = record m { control = record (m.control) { vbr = v } }
  write_control msp v m = record m {
    control = record (m.control) { msp = v };
    a = if m.control.m then update m.a 7 v else m.a;
  }
  write_control isp v m = record m {
    control = record (m.control) { isp = v };
    a = if m.control.m then m.a else update m.a 7 v;
  }
  write_control mmusr v m = record m { paging = record (m.paging) { mmusr = v } }
  write_control urp v m = record m { paging = record (m.paging) { urp = bit_and v (not32 0x1ff) } }
  write_control srp v m = record m { paging = record (m.paging) { srp = bit_and v (not32 0x1ff) } }

  abbrev pub control_written : Option ControlRegister → ℕ → Machine Io → Option (Machine Io)
  control_written none v m = none
  control_written (some r) v m = some (write_control r v m)

  unfoldable pub movec_to_cr_impl : ℕ → ℕ → Machine Io → Option (Machine Io)
  movec_to_cr_impl extw v m = control_written (control_register (extw % 2 ^ 12)) v m

  -- The line of the address is made invalid, and the result of ptest goes to MMUSR.
  abbrev ptest_fresh : Devices Io → ℕ → Bool → Bool → Bool → M Io (Unit {0})
  ptest_fresh devices addr sys code w m =
      let e = line_of m.paging code sys addr in
      bind
        (ptest devices addr sys code w
          (record m { paging = put_line code sys addr (record e { v = false }) m.paging }))
        λ re. modify (λ m1. record m1 { paging = record (m1.paging) { mmusr = value re } })

  unfoldable pub op_ptest : Devices Io → ℕ → Bool → M Io (Unit {0})
  unfolding value
  op_ptest devices address w m =
      let addr : ℕ = address / 2 ^ 12 in
      if m.dfc == 1
      then ptest_fresh devices addr false false w m
      else if m.dfc == 2
      then ptest_fresh devices addr false true w m
      else if m.dfc == 5
      then ptest_fresh devices addr true false w m
      else if m.dfc == 6
      then ptest_fresh devices addr true true w m
      else ok tt m
