-- ===== src/Regs/Render.antt =====
-- firmware/common/gen_npu_pmu_regs.py, `render` and the two modes of the script. The header is a list of
-- lines, each with at most one number, that are joined by line feeds.
use mps4_prototyping_board.Prelude.{
  ℕ, zero, suc, ◌+◌, ◌-◌, ◌*◌, ◌/◌, ◌%◌, ◌^◌, List, [], ◌∷◌, ◌++◌, Option, none, some, ltb,
  if◌then◌else◌, length, replicate, Result, ok, ◌>>=◌, Name, codes, same_name,
}
use Prim.Native.String.{String}
use mps4_prototyping_board.Regs.{Interface, Refusal}
use mps4_prototyping_board.Regs.Extract.{Place, Geometry, extract}

-- What follows the number of a line: the suffix U, or the rest of the comment on the counter's width.
pub data Ending : Type 0 where
  unsigned bits_remark : Ending

abbrev pub ending_text : Ending → Name
ending_text unsigned = codes "U"
ending_text bits_remark = codes " bits (LO 32 + HI 16), NOT 64. */"

-- A line with no number, with one that `%u` prints, and with one that `%0nX` prints.
pub data HeaderLine : Type 0 where
  fixed : String → HeaderLine
  decimal : String → ℕ → Ending → HeaderLine
  hexadecimal : String → ℕ → ℕ → Ending → HeaderLine

abbrev pub digit : ℕ → ℕ
digit d = if ltb d 10 then d + 48 else d + 55

-- The digits of a number, with as much fuel as the number.
unfoldable pub digits : ℕ → ℕ → ℕ → Name
digits base zero n = digit n ∷ []
digits base (suc fuel) n =
    let shorter = digits base fuel (n / base) in
    if ltb n base then digit n ∷ [] else shorter ++ digit (n % base) ∷ []

-- Zeros before a numeral, up to a width.
unfoldable pub padded : ℕ → Name → Name
padded width ds = replicate (width - length ds) 48 ++ ds

unfoldable pub line_text : HeaderLine → Name
unfolding digits padded
line_text (fixed text) = codes text
line_text (decimal before n ending) = codes before ++ digits 10 n n ++ ending_text ending
line_text (hexadecimal before width n ending) =
    codes before ++ padded width (digits 16 n n) ++ ending_text ending

-- `"\n".join(L)`
unfoldable pub join_lines : List HeaderLine → Name
unfolding line_text
join_lines [] = []
join_lines (l ∷ []) = line_text l
join_lines (l ∷ ls) = line_text l ++ 10 ∷ join_lines ls

-- `((1 << width) - 1) << pos`
unfoldable pub mask : Place → ℕ
mask p = (2 ^ p.width - 1) * 2 ^ p.pos

abbrev pub opening_lines : List HeaderLine
opening_lines =
    fixed "/* GENERATED by common/gen_npu_pmu_regs.py -- do not edit."
    ∷ fixed " *"
    ∷ fixed " * Extracted from the Ethos-U core driver's register map:"
    ∷ fixed
        " *   /opt/arm/ml-embedded-evaluation-kit/dependencies/core-driver/src/ethosu85_interface.h"
    ∷ fixed " *"
    ∷ fixed " * The driver is NOT linked; only the register geometry is borrowed,"
    ∷ fixed " * and check mode re-verifies it against the vendor header."
    ∷ fixed " *"
    ∷ fixed " * EVERY cycle-counter bit below comes from ITS OWN register struct."
    ∷ fixed " * Deriving one from another is what produced the milestone-1 defect:"
    ∷ fixed " * the cycle bit was computed as 1<<8 from the event-counter count,"
    ∷ fixed " * but 8 event bits are followed by 23 reserved bits, so the real"
    ∷ fixed " * position is 31. Bit 8 is reserved and reads as zero, which made a"
    ∷ fixed " * wrapped counter look overflow-free."
    ∷ fixed " */"
    ∷ fixed "#ifndef NPU_PMU_REGS_H"
    ∷ fixed "#define NPU_PMU_REGS_H"
    ∷ fixed ""
    ∷ fixed "/* Register offsets, relative to the NPU base (U85_BASE_ADDRESS). */"
    ∷ []

unfoldable pub offset_lines : Geometry → List HeaderLine
unfolding mask
offset_lines g =
    hexadecimal "#define NPU_REG_PMCR                 0x" 4 g.found.pmcr unsigned
    ∷ hexadecimal "#define NPU_REG_PMCNTENSET           0x" 4 g.found.pmcntenset unsigned
    ∷ hexadecimal "#define NPU_REG_PMCNTENCLR           0x" 4 g.found.pmcntenclr unsigned
    ∷ hexadecimal "#define NPU_REG_PMOVSSET             0x" 4 g.found.pmovsset unsigned
    ∷ hexadecimal "#define NPU_REG_PMOVSCLR             0x" 4 g.found.pmovsclr unsigned
    ∷ hexadecimal "#define NPU_REG_PMINTSET             0x" 4 g.found.pmintset unsigned
    ∷ hexadecimal "#define NPU_REG_PMINTCLR             0x" 4 g.found.pmintclr unsigned
    ∷ hexadecimal "#define NPU_REG_PMCCNTR              0x" 4 g.found.pmccntr unsigned
    ∷ hexadecimal "#define NPU_REG_PMCCNTR_HI           0x" 4 g.found.pmccntr_hi unsigned
    ∷ hexadecimal "#define NPU_REG_PMCCNTR_CFG          0x" 4 g.found.pmccntr_cfg unsigned
    ∷ hexadecimal "#define NPU_REG_PMEVCNTR_BASE        0x" 4 g.found.pmevcntr_base unsigned
    ∷ hexadecimal "#define NPU_REG_PMEVTYPER_BASE       0x" 4 g.found.pmevtyper_base unsigned
    ∷ fixed ""
    ∷ decimal "#define NPU_PMU_EVENT_COUNTERS_MAX   " g.found.pmevcntr_arrlen unsigned
    ∷ fixed "#define NPU_PMU_EVENT_COUNTER_WIDTH  32U"
    ∷ fixed ""
    ∷ decimal "/* Cycle counter is " g.cycle_width bits_remark
    ∷ decimal "#define NPU_PMU_CYCLE_COUNTER_WIDTH  " g.cycle_width unsigned
    ∷ fixed "#define NPU_PMU_CYCLE_HI_VALID_BITS  16U"
    ∷ fixed ""
    ∷ decimal "#define NPU_PMCR_CNT_EN_POS " g.bits.cnt_en.pos unsigned
    ∷ hexadecimal "#define NPU_PMCR_CNT_EN_MSK 0x" 8 (mask g.bits.cnt_en) unsigned
    ∷ decimal "#define NPU_PMCR_EVENT_CNT_RST_POS " g.bits.event_cnt_rst.pos unsigned
    ∷ hexadecimal "#define NPU_PMCR_EVENT_CNT_RST_MSK 0x" 8 (mask g.bits.event_cnt_rst) unsigned
    ∷ decimal "#define NPU_PMCR_CYCLE_CNT_RST_POS " g.bits.cycle_cnt_rst.pos unsigned
    ∷ hexadecimal "#define NPU_PMCR_CYCLE_CNT_RST_MSK 0x" 8 (mask g.bits.cycle_cnt_rst) unsigned
    ∷ decimal "#define NPU_PMCR_MASK_EN_POS " g.bits.mask_en.pos unsigned
    ∷ hexadecimal "#define NPU_PMCR_MASK_EN_MSK 0x" 8 (mask g.bits.mask_en) unsigned
    ∷ decimal "#define NPU_PMCR_NUM_EVENT_CNT_POS " g.bits.num_event_cnt.pos unsigned
    ∷ hexadecimal "#define NPU_PMCR_NUM_EVENT_CNT_MSK 0x" 8 (mask g.bits.num_event_cnt) unsigned
    ∷ fixed ""
    ∷ []

unfoldable pub cycle_lines : Geometry → List HeaderLine
unfolding mask
cycle_lines g =
    fixed "/* Per-register cycle bits. Never derived from the counter count. */"
    ∷ decimal "#define NPU_PMU_PMCNTEN_CYCLE_SHIFT   " g.cyc.enset unsigned
    ∷ fixed "#define NPU_PMU_PMCNTEN_CYCLE_MASK    (1U << NPU_PMU_PMCNTEN_CYCLE_SHIFT)"
    ∷ decimal "#define NPU_PMU_PMOVS_CYCLE_OVF_SHIFT " g.cyc.ovsset unsigned
    ∷ fixed "#define NPU_PMU_PMOVS_CYCLE_OVF_MASK  (1U << NPU_PMU_PMOVS_CYCLE_OVF_SHIFT)"
    ∷ fixed ""
    ∷ fixed "/* Cycle-counter gating. The value is COMPOSED from the extracted"
    ∷ fixed " * field positions and event numbers -- 0x11 is never written into"
    ∷ fixed " * the source. It only appears in the static assertion below, as a"
    ∷ fixed " * cross-check against the independently published encoding. */"
    ∷ decimal "#define NPU_PMU_PMCCNTR_CFG_START_SHIFT " g.gate.start.pos unsigned
    ∷ hexadecimal "#define NPU_PMU_PMCCNTR_CFG_START_MASK  0x" 8 (mask g.gate.start) unsigned
    ∷ decimal "#define NPU_PMU_PMCCNTR_CFG_STOP_SHIFT  " g.gate.stop.pos unsigned
    ∷ hexadecimal "#define NPU_PMU_PMCCNTR_CFG_STOP_MASK   0x" 8 (mask g.gate.stop) unsigned
    ∷ decimal "#define NPU_PMU_EVENT_CYCLE             " g.numbers.cycle unsigned
    ∷ decimal "#define NPU_PMU_EVENT_NO_EVENT          " g.numbers.no_event_value unsigned
    ∷ fixed "#define NPU_PMU_CYCLE_CFG_VALUE \\"
    ∷ fixed
        "    (((NPU_PMU_EVENT_CYCLE    << NPU_PMU_PMCCNTR_CFG_START_SHIFT) & NPU_PMU_PMCCNTR_CFG_START_MASK) | \\"
    ∷ fixed
        "     ((NPU_PMU_EVENT_NO_EVENT << NPU_PMU_PMCCNTR_CFG_STOP_SHIFT)  & NPU_PMU_PMCCNTR_CFG_STOP_MASK))"
    ∷ fixed ""
    ∷ []

abbrev pub closing_lines : List HeaderLine
closing_lines =
    fixed "_Static_assert(NPU_PMU_EVENT_CYCLE == 17u, \"unexpected CYCLE event\");"
    ∷ fixed "_Static_assert(NPU_PMU_EVENT_NO_EVENT == 0u, \"unexpected NO_EVENT\");"
    ∷ fixed "_Static_assert(NPU_PMU_CYCLE_CFG_VALUE == 0x11u,"
    ∷ fixed "               \"cycle counter configuration disagrees with the known encoding\");"
    ∷ fixed "_Static_assert(NPU_PMU_CYCLE_COUNTER_WIDTH == 48, \"unexpected PMU cycle width\");"
    ∷ fixed "_Static_assert(NPU_PMU_EVENT_COUNTERS_MAX == 8, \"ABI event slot count changed\");"
    ∷ fixed "_Static_assert(NPU_PMU_PMCNTEN_CYCLE_SHIFT >= NPU_PMU_EVENT_COUNTERS_MAX,"
    ∷ fixed "               \"PMCNTEN cycle bit overlaps the event-counter range\");"
    ∷ fixed "_Static_assert(NPU_PMU_PMOVS_CYCLE_OVF_SHIFT >= NPU_PMU_EVENT_COUNTERS_MAX,"
    ∷ fixed "               \"PMOVS overflow bit overlaps the event-counter range\");"
    ∷ fixed "_Static_assert(NPU_PMU_PMCNTEN_CYCLE_SHIFT == NPU_PMU_PMOVS_CYCLE_OVF_SHIFT,"
    ∷ fixed "               \"cycle enable and overflow bits must share a position\");"
    ∷ fixed "/* Cross-check against the independently known encoding, exactly as"
    ∷ fixed " * NPU_PMU_CYCLE_CFG_VALUE == 0x11 above. The positional rules cannot"
    ∷ fixed " * catch every cycle bit being moved to the same wrong place at once:"
    ∷ fixed " * bit 8 sits above the event range and the registers still agree with"
    ∷ fixed " * each other. Only pinning the known value closes that. This is a"
    ∷ fixed " * cross-check, NOT the source -- the value is still extracted. */"
    ∷ fixed "_Static_assert(NPU_PMU_PMCNTEN_CYCLE_SHIFT == 31u,"
    ∷ fixed "               \"cycle enable bit is not at the known position 31\");"
    ∷ fixed ""
    ∷ fixed "#endif /* NPU_PMU_REGS_H */"
    ∷ fixed ""
    ∷ []

unfoldable pub render_lines : Geometry → List HeaderLine
unfolding offset_lines cycle_lines
render_lines g = opening_lines ++ (offset_lines g ++ (cycle_lines g ++ closing_lines))

-- `render`
unfoldable pub render : Geometry → Name
unfolding render_lines join_lines
render g = join_lines (render_lines g)

-- `--generate`: the text that is written.
unfoldable pub generate : Interface → Result Refusal Name
unfolding render
generate h = do g ← extract h; ok (render g)

-- `--check`: the exit status, from the file's text, or none where it cannot be read.
unfoldable pub check : Interface → Option Name → Result Refusal ℕ
unfolding render
check h have = do
  g ← extract h
  ok (elim have [ none ↦ 1 | some text ↦ if same_name text (render g) then 0 else 1 ])
