-- ===== src/Tests/Registers.antt =====
-- Runs of the register header generator, on the part of a vendor header that it reads.
use mps4_prototyping_board.Prelude.{
  ℕ, ◌≡◌, ◌↔◌, refl, List, [], ◌∷◌, Option, none, some, if◌then◌else◌, Name, codes, same_name, ok,
}
use mps4_prototyping_board.Regs.{Interface, one, bitfields, hits, find_all}
use mps4_prototyping_board.Regs.Extract.{
  Geometry, extract, find_bits, find_cycles, find_gate, find_events, find_width,
}
use mps4_prototyping_board.Regs.Render.{generate, check, render}
use mps4_prototyping_board.Regs.Sound.{IsUsable, extract-IsUsable}
use mps4_prototyping_board.Regs.Check.{forget, check-generate_iff}

-- The one literal of each name; the length of the type registers' array is given.
abbrev literal : Name → List (Name × Name) → List Name
literal name [] = []
literal name ((other, text) ∷ rest) =
    let later = literal name rest in if same_name name other then text ∷ later else later

abbrev offsets : Name → List (Name × Name)
offsets types =
    (codes "NPU_REG_PMCR", codes "0x1180")
    ∷ (codes "NPU_REG_PMCNTENSET", codes "0x1184")
    ∷ (codes "NPU_REG_PMCNTENCLR", codes "0x1188")
    ∷ (codes "NPU_REG_PMOVSSET", codes "0x118C")
    ∷ (codes "NPU_REG_PMOVSCLR", codes "0x1190")
    ∷ (codes "NPU_REG_PMINTSET", codes "0x1194")
    ∷ (codes "NPU_REG_PMINTCLR", codes "0x1198")
    ∷ (codes "NPU_REG_PMCCNTR", codes "0x11A0")
    ∷ (codes "NPU_REG_PMCCNTR_HI", codes "0x11A4")
    ∷ (codes "NPU_REG_PMCCNTR_CFG", codes "0x11A8")
    ∷ (codes "NPU_REG_PMEVCNTR_BASE", codes "0x1300")
    ∷ (codes "NPU_REG_PMEVCNTR_ARRLEN", codes "8")
    ∷ (codes "NPU_REG_PMEVTYPER_BASE", codes "0x1380")
    ∷ (codes "NPU_REG_PMEVTYPER_ARRLEN", types)
    ∷ []

abbrev counters : Name → List (Name × ℕ)
counters last = (codes "EVENT_CNT", 8) ∷ (codes "reserved0", 23) ∷ (last, 1) ∷ []

abbrev structs : Name → Option (List (Name × ℕ))
structs name =
    if same_name name (codes "pmcr_r")
    then some (
        (codes "cnt_en", 1)
        ∷ (codes "event_cnt_rst", 1)
        ∷ (codes "cycle_cnt_rst", 1)
        ∷ (codes "mask_en", 1)
        ∷ (codes "reserved0", 7)
        ∷ (codes "num_event_cnt", 5)
        ∷ (codes "reserved1", 16)
        ∷ [])
    else if same_name name (codes "pmcntenset_r")
    then some (counters (codes "CYCLE_CNT"))
    else if same_name name (codes "pmcntenclr_r")
    then some (counters (codes "CYCLE_CNT"))
    else if same_name name (codes "pmovsset_r")
    then some (counters (codes "CYCLE_CNT_OVF"))
    else if same_name name (codes "pmovsclr_r")
    then some (counters (codes "CYCLE_CNT_OVF"))
    else if same_name name (codes "pmccntr_cfg_r")
    then some (
        (codes "CYCLE_CNT_CFG_START", 10)
        ∷ (codes "reserved0", 6)
        ∷ (codes "CYCLE_CNT_CFG_STOP", 10)
        ∷ (codes "reserved1", 6)
        ∷ [])
    else if same_name name (codes "pmccntr_r")
    then some
        ((codes "CYCLE_CNT_LO", 32) ∷ (codes "CYCLE_CNT_HI", 16) ∷ (codes "reserved0", 16) ∷ [])
    else none

abbrev vendor : Name → Interface
vendor types = record {
  defines = λ name. literal name (offsets types);
  struct = structs;
  pmu_event = some ((codes "NO_EVENT", 0) ∷ (codes "CYCLE", 17) ∷ []);
}

abbrev expected : ℕ → Geometry
expected types = record {
  found = record {
    pmcr = 0x1180;
    pmcntenset = 0x1184;
    pmcntenclr = 0x1188;
    pmovsset = 0x118C;
    pmovsclr = 0x1190;
    pmintset = 0x1194;
    pmintclr = 0x1198;
    pmccntr = 0x11A0;
    pmccntr_hi = 0x11A4;
    pmccntr_cfg = 0x11A8;
    pmevcntr_base = 0x1300;
    pmevcntr_arrlen = 8;
    pmevtyper_base = 0x1380;
    pmevtyper_arrlen = types;
  };
  bits = record {
    cnt_en = record { pos = 0; width = 1 };
    event_cnt_rst = record { pos = 1; width = 1 };
    cycle_cnt_rst = record { pos = 2; width = 1 };
    mask_en = record { pos = 3; width = 1 };
    num_event_cnt = record { pos = 11; width = 5 };
  };
  cycle_width = 48;
  cyc = record { enset = 31; enclr = 31; ovsset = 31; ovsclr = 31 };
  gate = record { start = record { pos = 0; width = 10 }; stop = record { pos = 16; width = 10 } };
  numbers = record { cycle = 17; no_event_value = 0 };
}

extract_run : extract (vendor (codes "8")) ≡ ok (expected 8)
unfolding extract find_all find_bits find_cycles find_gate find_events find_width bitfields hits one
extract_run = refl

later_run : extract (vendor (codes "4")) ≡ ok (expected 4)
unfolding extract find_all find_bits find_cycles find_gate find_events find_width bitfields hits one
later_run = refl

generate_run : generate (vendor (codes "8")) ≡ ok (render (expected 8))
unfolding generate
generate_run = rw (extract_run, generate) refl

extract-IsUsable_example : IsUsable (expected 8)
extract-IsUsable_example = extract-IsUsable (vendor (codes "8")) (expected 8) extract_run

-- The second header has fewer type registers, and the check passes.
check-generate_iff_example :
    (check (vendor (codes "4")) (some (render (expected 8))) ≡ ok 0)
    ↔ (forget (expected 8) ≡ forget (expected 4))
check-generate_iff_example =
    check-generate_iff (vendor (codes "8")) (vendor (codes "4")) (expected 8) (expected 4)
      extract_run later_run (render (expected 8)) generate_run

drift_unseen : check (vendor (codes "4")) (some (render (expected 8))) ≡ ok 0
drift_unseen =
    (check-generate_iff (vendor (codes "8")) (vendor (codes "4")) (expected 8) (expected 4)
        extract_run later_run (render (expected 8)) generate_run).1
      refl
