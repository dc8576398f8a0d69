-- ===== src/Runner.antt =====
-- firmware/gate/check_runner.py, the gate over the linked runner and its sources. The disassembly is given by
-- what the regular expressions say of its lines, and the symbol table by what they find in it.
pub mod Calls
pub mod Gate
use mps4_prototyping_board.Prelude.{
  ℕ, ◌-◌, List, [], ◌∷◌, Bool, true, false, not, ◌&&◌, ◌||◌, Option, none, some, if◌then◌else◌,
  length, drop, Result, ok, err, ◌>>=◌, ◌>>◌, refuse_if, Name, codes, has,
}
use mps4_prototyping_board.Bytes.{Bytes, find}
use mps4_prototyping_board.Events.{nat_equality}

-- A line of the disassembly: whether it is a `bl` to a callee, whether it is any `bl`, and whether
-- _R0_WRITE and _R0_IMM are found in it.
pub record AsmLine : Type 0 where
  pub calls : Name → Bool
  pub is_bl : Bool
  pub writes_r0 : Bool
  pub immediate_r0 : Bool

-- The inner loop, over the lines before a call, the nearest first.
unfoldable pub takes_register : List AsmLine → Bool
takes_register [] = false
takes_register (l ∷ ls) =
    let rest = takes_register ls in
    if l.is_bl then false else if l.writes_r0 then not l.immediate_r0 else rest

-- The outer loop, with the lines before, the nearest first.
unfoldable pub call_after : Name → List AsmLine → List AsmLine → Bool
unfolding takes_register
call_after callee before [] = false
call_after callee before (l ∷ ls) =
    let rest = call_after callee (l ∷ before) ls in
    (l.calls callee && takes_register before) || rest

-- `_register_offset_call`
unfoldable pub register_offset_call : List AsmLine → Name → Bool
unfolding call_after
register_offset_call lines callee = call_after callee [] lines

-- `pattern in text`
unfoldable pub contains : Name → Name → Bool
unfolding find
contains pat text = elim (find pat text) [ none ↦ false | some i ↦ true ]

-- RULES
pub data Rule : Type 0 where
  inference_linked pmevtyper_loop_store pmevcntr_loop_load build_id_present main_present : Rule
  mode2 seam_hook ext_attr test_u85_wrap model_path : Rule

pub record Inputs : Type 0 where
  pub objdump : List AsmLine
  pub literals : List ℕ
  pub linked : Name → Bool
  pub wrap_test_u85 : Bool
  pub strong_power_ctrl : Bool
  pub src : Name
  pub build_id : ℕ
  pub elf : Bytes
  pub vendor : Name

abbrev pub runner_magic : ℕ
runner_magic = 0x4C57_4D50

abbrev pub wrap_head : Name
wrap_head = codes "int __wrap_printf(const char *fmt, ...)"

abbrev pub seam_fmt : Name
seam_fmt = codes "\"Testing CPM signals\\n\""

abbrev pub apply_fmt : Name
apply_fmt = codes "Updating POWER_CTRL register with MAC_RAMP_VAR=%d"

abbrev pub ext_literal : Name
ext_literal = codes "Enabling AXI EXT port testing"

abbrev pub raised_timeout : Name
raised_timeout = codes "#define BUSY_SLEEP_TIMEOUT 200000000"

abbrev pub power_ctrl_hook : Name
power_ctrl_hook = codes "write_reg(NPU_REG_POWER_CTRL, u85_power_ctrl_value(MAC_RAMP_VAR));"

abbrev pub events_define : Name
events_define = codes "#define INSTRUMENTATION_EVENTS    2U"

abbrev pub count_refusal : Name
count_refusal = codes "count != 0U && mode != INSTRUMENTATION_EVENTS"

-- `src_text[src_text.find(head):]`: the last character where the head is not found, since `find` gives -1.
unfoldable pub wrap_of : Name → Name
unfolding find
wrap_of src = elim (find wrap_head src) [ none ↦ drop (length src - 1) src | some i ↦ drop i src ]

-- `check`
unfoldable pub check_runner : Inputs → Result Rule (Unit {0})
unfolding register_offset_call contains wrap_of
check_runner r = do
  refuse_if (not (r.linked (codes "apU85Conv_TEST"))) inference_linked
  refuse_if (not (register_offset_call r.objdump (codes "pmu_reg_write"))) pmevtyper_loop_store
  refuse_if (not (register_offset_call r.objdump (codes "pmu_reg_read"))) pmevcntr_loop_load
  refuse_if (not (has r.build_id r.literals)) build_id_present
  refuse_if (not (r.linked (codes "main"))) main_present
  refuse_if (not (contains events_define r.src) || not (contains count_refusal r.src)) mode2
  refuse_if (not (contains seam_fmt (wrap_of r.src)) || not (r.linked (codes "__wrap_printf")))
      seam_hook
  refuse_if (not (contains ext_literal r.elf)) ext_attr
  refuse_if (not r.wrap_test_u85) test_u85_wrap
  refuse_if (not (has runner_magic r.literals)) model_path
  refuse_if (not (contains apply_fmt (wrap_of r.src))) model_path
  refuse_if (not (contains raised_timeout r.vendor)) model_path
  refuse_if (not (contains power_ctrl_hook r.vendor)) model_path
  refuse_if (not r.strong_power_ctrl) model_path
  ok tt
