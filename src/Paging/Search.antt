-- ===== src/Paging/Search.antt =====
-- src/cpu/68040_mmu.cc, its second part: the search of the page tables, ptest and ptest_and_check.
use newmacemu.Common.{
  ℕ, ◌*◌, ◌/◌, ◌%◌, ◌^◌, Bool, true, false, not, ◌&&◌, ◌||◌, bit_and, bit_or, bit, not32, ltb, ◌==◌,
  if◌then◌else◌, long,
}
use newmacemu.Machine.{
  AtcEntry, Outcome, ok, ptest_error, raised, halted, M, bind, ◌>>=◌, pure, modify,
}
use newmacemu.Bus.{Devices, bus_read, bus_write}
use newmacemu.Paging.{MmuResult, no_result, ptest_ttr, line_of, put_line}

-- DESP_W, DESP_U, DESP_M, DESP_S and DESP_G as bits of a descriptor.
abbrev pub desp_u : ℕ
desp_u = 2 ^ 3

abbrev pub desp_m : ℕ
desp_m = 2 ^ 4

-- The indices that addr_e takes from a page number.
abbrev pub pgi : ℕ → Bool → ℕ
pgi v large = if large then bit_and (v / 2) 0x1f else bit_and v 0x3f

abbrev pub pi : ℕ → ℕ
pi v = bit_and (v / 2 ^ 6) 0x7f

abbrev pub ri : ℕ → ℕ
ri v = bit_and (v / 2 ^ 13) 0x7f

-- `x & ~mask` on a uint32_t.
abbrev pub without : ℕ → ℕ → ℕ
without x mask = bit_and x (not32 mask)

abbrev pub set_line : {Io : Type 0} → Bool → Bool → ℕ → AtcEntry → M Io (Unit {0})
set_line code sys addr e = modify (λ m. record m { paging = put_line code sys addr e m.paging })

unfoldable pub atc_search_not_found : {Io : Type 0} → Bool → Bool → ℕ → M Io (Unit {0})
atc_search_not_found code sys addr m =
    set_line code sys addr
      (record (line_of m.paging code sys addr) { laddr = addr; v = true; r = false }) m

-- What a descriptor leaves in a line.
abbrev pub loaded : ℕ → ℕ → ℕ → Bool → AtcEntry
loaded addr pg_addr pg wp = record {
  laddr = addr;
  v = true;
  g = bit pg 10;
  paddr = pg / 2 ^ 12;
  pg_addr = pg_addr;
  u = bit_and (pg / 2 ^ 8) 3;
  s = bit pg 7;
  cm = bit_and (pg / 2 ^ 5) 3;
  m = bit pg 4;
  w = wp;
  r = true;
}

-- The used and modified bits that an access with the descriptor pg sets.
abbrev pub touched : ℕ → Bool → Bool → Bool → ℕ
touched pg w wp s =
    if not (wp && w) && not (bit pg 7 && not s)
    then (if not (bit pg 4) && w then bit_or pg desp_m else pg)
    else pg

module _ {Io : Type 0} (devices : Devices Io) where
  -- atc_set after the descriptor is found at pg_addr.
  abbrev atc_load : Bool → ℕ → ℕ → ℕ → Bool → Bool → Bool → M Io (Unit {0})
  atc_load code addr pg_addr pg0 w wp0 s =
      let used : ℕ = bit_or pg0 desp_u in
      let wp : Bool = wp0 || bit used 2 in
      let pg : ℕ = touched used w wp s in
      bus_write devices long pg_addr pg >>= λ done. set_line code s addr (loaded addr pg_addr pg wp)

  -- atc_set: an invalid descriptor leaves the line as it is. `s` also picks the cache.
  unfoldable pub atc_set : Bool → ℕ → ℕ → Bool → Bool → Bool → M Io (Unit {0})
  atc_set code addr pg_addr w wp s = bus_read devices long pg_addr >>= λ pg.
      if bit_and pg 3 == 0
      then pure tt
      else if bit_and pg 3 == 2
      then (bus_read devices long (without pg 3) >>= λ direct.
          atc_load code addr (without pg 3) direct w wp s)
      else atc_load code addr pg_addr pg w wp s

  -- pdt_lookup: zero for a descriptor that is not resident.
  unfoldable pub pdt_lookup : ℕ → M Io ℕ
  pdt_lookup addr = bus_read devices long addr >>= λ urp.
      if ltb (bit_and urp 3) 2
      then pure 0
      else bus_write devices long addr (bit_or urp desp_u) >>= λ done. pure (bit_or urp desp_u)

  unfoldable pub atc_search : Bool → ℕ → Bool → Bool → M Io (Unit {0})
  atc_search code addr s w m =
      let large : Bool = m.paging.tcr_p in
      let root : ℕ = if s then m.paging.srp else m.paging.urp in
      bind (pdt_lookup (bit_or root (ri addr * 2 ^ 2)) m) λ urp.
        if urp == 0
        then atc_search_not_found code s addr
        else pdt_lookup (bit_or (without urp 0x1ff) (pi addr * 2 ^ 2)) >>= λ pt.
            if pt == 0
            then atc_search_not_found code s addr
            else atc_set code addr
                (bit_or (without pt (if large then 0x7f else 0xff)) (pgi addr large * 2 ^ 2)) w
                (bit (bit_or urp pt) 2) s

  -- The hit test of ptest.
  abbrev pub hit : AtcEntry → ℕ → Bool
  hit e addr = e.v && e.laddr == addr

  -- `try { atc_search } catch(BusError &) { return {.B = true}; }`
  abbrev pub searched : Outcome Io (Unit {0}) → M Io MmuResult → Outcome Io MmuResult
  searched (ok x m) next = next m
  searched (ptest_error code m) next = ok (record no_result { b = true }) m
  searched (raised n m) next = raised n m
  searched (halted m) next = halted m

  -- The last lines of ptest, on a line.
  abbrev pub line_result : AtcEntry → MmuResult
  line_result e = record no_result {
    r = e.r;
    w = e.w;
    m = e.m;
    cm = e.cm;
    s = e.s;
    ux = e.u;
    g = e.g;
    paddr = e.paddr;
  }

  -- A first write to a page sets M in the descriptor and in the line.
  abbrev pub first_write : AtcEntry → Bool → Bool → Bool
  first_write e sys w = e.r && w && not e.w && not e.m && not (e.s && not sys)

  unfoldable pub ptest_line : ℕ → Bool → Bool → Bool → M Io MmuResult
  ptest_line addr sys code w m =
      let e = line_of m.paging code sys addr in
      if first_write e sys w
      then (bind (bus_read devices long e.pg_addr m) λ pg.
          bus_write devices long e.pg_addr (bit_or pg desp_m) >>= λ done.
          set_line code sys addr (record e { m = true }) >>= λ marked.
          pure (line_result (record e { m = true })))
      else ok (line_result e) m

  -- ptest after the transparent translation registers.
  abbrev ptest_table : ℕ → Bool → Bool → Bool → M Io MmuResult
  ptest_table addr sys code w m =
      if hit (line_of m.paging code sys addr) addr
      then ptest_line addr sys code w m
      else searched (atc_search code addr sys w m) (ptest_line addr sys code w)

  unfoldable pub ptest : ℕ → Bool → Bool → Bool → M Io MmuResult
  ptest addr sys code w m =
      let pret = ptest_ttr m.paging addr sys code in
      if pret.r
      then (if pret.w && w then ok no_result m else ok pret m)
      else if not m.paging.tcr_e
      then ok (record no_result { r = true; paddr = addr }) m
      else ptest_table addr sys code w m

  -- What ptest_and_check does with the result: SSW_ATC is 2 ^ 10.
  abbrev pub checked : ℕ → Bool → MmuResult → M Io ℕ
  checked addr w ret m =
      let base : ℕ = ret.paddr * 2 ^ 12 % 2 ^ 32 in
      if ret.b
      then ptest_error 0 m
      else if not ret.r
      then ptest_error (2 ^ 10) m
      else if ret.w && w
      then ptest_error (2 ^ 10) m
      else if ret.s && not m.s
      then ptest_error (2 ^ 10) m
      else ok
          (if m.paging.tcr_p
            then bit_or (bit_and base (not32 1)) (bit_and addr 0x1fff)
            else bit_or base (bit_and addr 0xfff))
          m

  unfoldable pub ptest_and_check : ℕ → Bool → Bool → M Io ℕ
  ptest_and_check addr code w m =
      bind (ptest (addr / 2 ^ 12) m.s code w m) λ ret. checked addr w ret
