-- ===== src/Decoder/Table.antt =====
-- src/cpu/op.cc, init_run_table as a whole, with M68040FpuFull::init_table (src/cpu/68040_fpu.cc) and
-- init_run_table_mmu (src/cpu/68040_mmu.cc), whose assignments come last.
use newmacemu.Common.{ℕ, List, [], ◌∷◌, ◌++◌, Option}
use newmacemu.Paging.Handlers.{
  dc, ic, bc, cinvl, cinvp, cinva, cpushl, cpushp, cpusha, pflushn, pflush, pflushan, pflusha,
  ptestr, ptestw,
}
use newmacemu.Decoder.{
  Loop, loop, Rule, ◌at◌for◌, oct, Instruction, mmu, fpu, fop, fscc, fsave, frestore, fdbcc,
  ftrapcc, fbcc_w, fbcc_l, last_handler,
}
use newmacemu.Decoder.General.{general_rules}
use newmacemu.Decoder.Forms.{form_rules}
use newmacemu.Decoder.Memory.{memory_rules}
use newmacemu.Decoder.Single.{single_rules}
use newmacemu.Decoder.Shifting.{shift_rules}

abbrev i : Loop
i = loop 0 3 0 8

abbrev mode : Loop
mode = loop 0 6 0 (oct 74)

abbrev any_mode : Loop
any_mode = loop 0 6 0 (oct 100)

unfoldable pub fpu_rules : List Rule
fpu_rules =
    (fpu fop at oct 171000 for mode ∷ [])
    ∷ (fpu fscc at oct 171100 for mode ∷ [])
    ∷ (fpu fsave at oct 171400 for mode ∷ [])
    ∷ (fpu frestore at oct 171500 for mode ∷ [])
    ∷ (fpu fdbcc at oct 171110 for i ∷ [])
    ∷ (fpu ftrapcc at oct 171172 for [])
    ∷ (fpu ftrapcc at oct 171173 for [])
    ∷ (fpu ftrapcc at oct 171174 for [])
    ∷ (fpu fbcc_w at oct 171200 for any_mode ∷ [])
    ∷ (fpu fbcc_l at oct 171300 for any_mode ∷ [])
    ∷ []

unfoldable pub mmu_rules : List Rule
mmu_rules =
    (mmu (cinvl dc) at oct 172110 for i ∷ [])
    ∷ (mmu (cinvp dc) at oct 172120 for i ∷ [])
    ∷ (mmu (cinva dc) at oct 172130 for i ∷ [])
    ∷ (mmu (cpushl dc) at oct 172150 for i ∷ [])
    ∷ (mmu (cpushp dc) at oct 172160 for i ∷ [])
    ∷ (mmu (cpusha dc) at oct 172170 for i ∷ [])
    ∷ (mmu (cinvl ic) at oct 172210 for i ∷ [])
    ∷ (mmu (cinvp ic) at oct 172220 for i ∷ [])
    ∷ (mmu (cinva ic) at oct 172230 for i ∷ [])
    ∷ (mmu (cpushl ic) at oct 172250 for i ∷ [])
    ∷ (mmu (cpushp ic) at oct 172260 for i ∷ [])
    ∷ (mmu (cpusha ic) at oct 172270 for i ∷ [])
    ∷ (mmu (cinvl bc) at oct 172310 for i ∷ [])
    ∷ (mmu (cinvp bc) at oct 172320 for i ∷ [])
    ∷ (mmu (cinva bc) at oct 172330 for i ∷ [])
    ∷ (mmu (cpushl bc) at oct 172350 for i ∷ [])
    ∷ (mmu (cpushp bc) at oct 172360 for i ∷ [])
    ∷ (mmu (cpusha bc) at oct 172370 for i ∷ [])
    ∷ (mmu pflushn at oct 172400 for i ∷ [])
    ∷ (mmu pflush at oct 172410 for i ∷ [])
    ∷ (mmu pflushan at oct 172420 for i ∷ [])
    ∷ (mmu pflusha at oct 172430 for i ∷ [])
    ∷ (mmu ptestw at oct 172510 for i ∷ [])
    ∷ (mmu ptestr at oct 172550 for i ∷ [])
    ∷ []

-- The assignments in their order.
abbrev pub all_rules : List Rule
all_rules =
    general_rules
    ++ (form_rules ++ (memory_rules ++ (single_rules ++ (shift_rules ++ (fpu_rules ++ mmu_rules)))))

unfoldable pub run_table : ℕ → Option Instruction
unfolding general_rules form_rules memory_rules single_rules shift_rules fpu_rules mmu_rules
run_table op = last_handler all_rules op
